-- ===== src/Rfc/Uri/Rules.antt =====
-- The rules for URLs return valid URLs of the text that they take.
use boost_url.Base.{
  ℕ, ◌+◌, ◌≤◌, ◌≡◌, refl, ap, inl, inr, Option, none, [], ◌∷◌, ◌++◌, append-nil, arith, Bytes,
  length, length-append, Holds,
}
use boost_url.Grammar.{delim_rule}
use boost_url.Grammar.Yields.{Taken, Yields, Yields-bind, Yields-map, delim_rule-Yields}
use boost_url.Pct.View.{PctEncodedView}
use boost_url.Range.{no_limit, Range}
use boost_url.Range.Laws.{IsRange, range_rule-Yields}
use boost_url.Rfc.Path.Yields.{
  IsSlashSegment, IsSegmentNz, IsSegmentNzNc, IsSlashSegment-Yields, IsPathAbempty, IsPathNoscheme,
  IsPathRootless,
}
use boost_url.Rfc.Query.{query_part_rule, fragment_part_rule}
use boost_url.Rfc.Query.Yields.{
  IsQueryPart, IsFragmentPart, query_part_rule-Yields, fragment_part_rule-Yields,
}
use boost_url.Rfc.Uri.{
  hier_part_rule, relative_part_rule, with_hier_part, with_query, with_frag, scheme_part_rule,
  absolute_uri_parts, absolute_uri_rule, relative_ref_parts, relative_ref_rule, origin_path_rule,
  origin_form_parts, origin_form_rule, HierPart,
}
use boost_url.Rfc.Uri.Authority.{new_impl-Laid}
use boost_url.Rfc.Uri.Construct.{made-IsUrl}
use boost_url.Rfc.Uri.Hier.{IsHierPart, hier_part_rule-Yields, relative_part_rule-Yields}
use boost_url.Rfc.Uri.Yields.{SchemeText, FragmentText, NoText, Whole, url_table, IsUrl, UrlTable}
use boost_url.Rfc.Userinfo.{scheme_rule, SchemeValue}
use boost_url.Rfc.Userinfo.Yields.{IsScheme, scheme_rule-Yields}
use boost_url.Scheme.{string_to_scheme}
use boost_url.Url.{max_size}
use boost_url.Url.Apply.{new_impl, apply_scheme}
use boost_url.Url.Apply.Laid.{Laid, empty-Laid, lay}

scheme_part_rule-Yields :
    Yields (λ t v. (w : Bytes) × (t ≡ w ++ b':' ∷ []) × IsScheme w v) scheme_part_rule
unfolding scheme_part_rule
scheme_part_rule-Yields = Yields-bind IsScheme _ _ scheme_rule scheme_rule-Yields (λ w v k.
    Yields-bind (λ t _. t ≡ b':' ∷ []) _ _ (delim_rule b':') (delim_rule-Yields b':')
      (λ t _ e rest. ([], refl, (w, rw e refl, k))))

Whole-IsRange : (lo : ℕ) (F G : Bytes → Type 0) → Whole (IsRange lo F G)
Whole-IsRange lo F G a r k = k.0

scheme-Laid :
    (w t : Bytes) (v : SchemeValue)
    → v.scheme ≡ w
    → t ≡ w ++ b':' ∷ []
    → length t ≤ max_size
    → Laid (apply_scheme v.scheme new_impl) (t ∷ [])
unfolding apply_scheme
scheme-Laid w t v e f small =
    lay (record new_impl { scheme_ = string_to_scheme v.scheme }) [] t (length v.scheme + 1)
      new_impl-Laid (omega arith)
      (omega (arith, ap length e, ap length f, length-append w (b':' ∷ []))) (omega (arith, small))

-- A scheme, then the hierarchical part, a query and a fragment that is of `E`.
uri_table :
    (E : Bytes → Type 0) (s w t q f : Bytes) (v : SchemeValue) (hv : HierPart) (qv : Option Range)
    (fv : Option PctEncodedView)
    → s ≡ w ++ b':' ∷ []
    → IsScheme w v
    → IsHierPart IsPathRootless t hv
    → IsQueryPart q qv
    → IsFragmentPart f fv
    → E f
    → length (s ++ (t ++ (q ++ f))) ≤ max_size
    → UrlTable SchemeText IsPathRootless E
        (s ++ (t ++ (q ++ f)))
        (with_frag fv (with_query qv (with_hier_part hv (apply_scheme v.scheme new_impl))))
uri_table E s w t q f v hv qv fv e k is_t is_q is_f is_e small =
    url_table SchemeText IsPathRootless E (Whole-IsRange 1 IsSegmentNz IsSlashSegment) _ s t q f hv
      qv fv (scheme-Laid w s v (k.0) e (omega (arith, small, length-append s (t ++ (q ++ f)))))
      (w, e, (v, k)) is_t is_q is_f is_e small

-- A URL that `absolute_uri_rule` returns is valid in the same way, and has no fragment.
pub absolute_uri_rule_valid :
    (s : Bytes)
    → length s ≤ max_size
    → Holds (Taken (IsUrl SchemeText IsPathRootless NoText) s) (absolute_uri_rule s)
unfolding absolute_uri_rule absolute_uri_parts with_frag
absolute_uri_rule_valid = made-IsUrl SchemeText IsPathRootless NoText absolute_uri_parts (
    Yields-bind _ _ _ scheme_part_rule scheme_part_rule-Yields (λ s v (w, e, k).
      Yields-bind (IsHierPart IsPathRootless) _ _ hier_part_rule hier_part_rule-Yields (λ t hv is_t.
        Yields-bind IsQueryPart _ _ query_part_rule query_part_rule-Yields (λ q qv is_q rest.
          ([], refl, uri_table NoText s w t q [] v hv qv none e k is_t is_q refl refl)))))

-- A URL that `relative_ref_rule` returns is valid in the same way, has no scheme, and its path with no
-- authority is empty, starts with a '/', or has no colon in its first segment.
pub relative_ref_rule_valid :
    (s : Bytes)
    → length s ≤ max_size
    → Holds (Taken (IsUrl NoText IsPathNoscheme FragmentText) s) (relative_ref_rule s)
unfolding relative_ref_rule relative_ref_parts
relative_ref_rule_valid = made-IsUrl NoText IsPathNoscheme FragmentText relative_ref_parts (
    Yields-bind (IsHierPart IsPathNoscheme) _ _ relative_part_rule relative_part_rule-Yields
      (λ t hv is_t. Yields-bind IsQueryPart _ _ query_part_rule query_part_rule-Yields (λ q qv is_q.
        Yields-bind IsFragmentPart _ _ fragment_part_rule fragment_part_rule-Yields
          (λ f fv is_f rest. (
            [],
            refl,
            rw (append-nil f) (
                url_table NoText IsPathNoscheme FragmentText
                  (Whole-IsRange 1 IsSegmentNzNc IsSlashSegment) new_impl [] t q f hv qv fv
                  (empty-Laid new_impl [] new_impl-Laid) refl is_t is_q is_f (fv, is_f)),
          )))))

-- A URL that `origin_form_rule` returns is valid in the same way, and consists of a path of segments
-- that each follow a '/', and a query or none.
pub origin_form_rule_valid :
    (s : Bytes)
    → length s ≤ max_size
    → Holds (Taken (IsUrl NoText IsPathAbempty NoText) s) (origin_form_rule s)
unfolding origin_form_rule origin_form_parts origin_path_rule with_frag with_hier_part
origin_form_rule_valid = made-IsUrl NoText IsPathAbempty NoText origin_form_parts (
    Yields-bind IsPathAbempty _ _ origin_path_rule
      (Yields-map (IsRange 1 IsSlashSegment IsSlashSegment) IsPathAbempty _
        (range_rule-Yields IsSlashSegment IsSlashSegment _ _ IsSlashSegment-Yields
          IsSlashSegment-Yields 1 no_limit)
        (λ t p (e, _, k). (e, omega arith, k)))
      (λ t p is_t.
        Yields-bind IsQueryPart _ _ query_part_rule query_part_rule-Yields (λ q qv is_q rest. (
          [],
          refl,
          url_table NoText IsPathAbempty NoText (Whole-IsRange 0 IsSlashSegment IsSlashSegment)
              new_impl [] t q [] (record { authority = none; path = p }) qv none
              (empty-Laid new_impl [] new_impl-Laid) refl (inl (refl, inr (inr is_t))) is_q refl
              refl,
        ))))
