-- ===== src/Rfc/Uri/Yields.antt =====
-- What the rules for URLs return: a valid table over the text that they take, with the parts of the
-- grammar.
use boost_url.Base.{
  ◌+◌, ◌≤◌, ◌≡◌, ap, ◌∙◌, Option, none, some, [], ◌∷◌, ◌++◌, append_assoc, arith, Bytes, length,
  length-append,
}
use boost_url.Pct.View.{PctEncodedView}
use boost_url.Range.{Range}
use boost_url.Rfc.Query.Yields.{IsQueryPart, IsFragmentPart}
use boost_url.Rfc.Uri.{with_hier_part, with_query, with_frag, HierPart}
use boost_url.Rfc.Uri.Filled.{with_hier_part-Laid}
use boost_url.Rfc.Uri.Hier.{HierText, IsHierPart}
use boost_url.Rfc.Userinfo.{SchemeValue}
use boost_url.Rfc.Userinfo.Yields.{IsScheme}
use boost_url.Url.{
  id_scheme, id_user, id_pass, id_host, id_port, id_path, id_query, id_frag, max_size, get, Url,
}
use boost_url.Url.Apply.{apply_query, apply_frag}
use boost_url.Url.Apply.Laid.{Laid, empty-Laid, total, lay}
use boost_url.Url.Frame.{IsValid}

-- scheme ":"
abbrev pub SchemeText : Bytes → Type 0
SchemeText t = (w : Bytes) × (t ≡ w ++ b':' ∷ []) × ((v : SchemeValue) × IsScheme w v)

abbrev pub QueryText : Bytes → Type 0
QueryText t = (v : Option Range) × IsQueryPart t v

abbrev pub FragmentText : Bytes → Type 0
FragmentText t = (v : Option PctEncodedView) × IsFragmentPart t v

abbrev pub NoText : Bytes → Type 0
NoText t = t ≡ []

-- The table of `u` is valid, the characters are `t`, and each part is a text of its form: the scheme of
-- `S`, the path with no authority of `F`, the fragment of `E`.
pub record IsUrl (S : Bytes → Type 0) (F : Bytes → Range → Type 0) (E : Bytes → Type 0) (t : Bytes)
    (u : Url) : Type 0 where
  pub valid : IsValid u
  pub chars_are : u.chars ≡ t
  pub scheme_text : S (get u id_scheme)
  pub hier_text :
      HierText F (get u id_user) (get u id_pass) (get u id_host) (get u id_port) (get u id_path)
  pub query_text : QueryText (get u id_query)
  pub fragment_text : E (get u id_frag)

-- The table before `construct`.
pub record UrlTable (S : Bytes → Type 0) (F : Bytes → Range → Type 0) (E : Bytes → Type 0)
    (t : Bytes) (u : Url) : Type 0 where
  pub s : Bytes
  pub x : Bytes
  pub y : Bytes
  pub h : Bytes
  pub p : Bytes
  pub a : Bytes
  pub q : Bytes
  pub f : Bytes
  pub whole : t ≡ s ++ (x ++ (y ++ (h ++ (p ++ (a ++ (q ++ f))))))
  pub laid : Laid u (s ∷ x ∷ y ∷ h ∷ p ∷ a ∷ q ∷ f ∷ [])
  pub scheme_text : S s
  pub hier_text : HierText F x y h p a
  pub query_text : QueryText q
  pub fragment_text : E f

with_query-Laid :
    (u : Url) (s x y h p a q : Bytes) (v : Option Range)
    → Laid u (s ∷ x ∷ y ∷ h ∷ p ∷ a ∷ [])
    → IsQueryPart q v
    → total (s ∷ x ∷ y ∷ h ∷ p ∷ a ∷ []) + length q ≤ max_size
    → Laid (with_query v u) (s ∷ x ∷ y ∷ h ∷ p ∷ a ∷ q ∷ [])
unfolding with_query apply_query
with_query-Laid u s x y h p a q none laid e small =
    rw e (empty-Laid u (s ∷ x ∷ y ∷ h ∷ p ∷ a ∷ []) laid)
with_query-Laid u s x y h p a q (some v) laid (w, e, k) small =
    lay (record u { nparam_ = v.size }) (s ∷ x ∷ y ∷ h ∷ p ∷ a ∷ []) q (1 + length v.string) laid
      (omega arith) (omega (arith, ap length e, ap length (k.0))) small

with_frag-Laid :
    (u : Url) (s x y h p a q f : Bytes) (v : Option PctEncodedView)
    → Laid u (s ∷ x ∷ y ∷ h ∷ p ∷ a ∷ q ∷ [])
    → IsFragmentPart f v
    → total (s ∷ x ∷ y ∷ h ∷ p ∷ a ∷ q ∷ []) + length f ≤ max_size
    → Laid (with_frag v u) (s ∷ x ∷ y ∷ h ∷ p ∷ a ∷ q ∷ f ∷ [])
unfolding with_frag apply_frag
with_frag-Laid u s x y h p a q f none laid e small =
    rw e (empty-Laid u (s ∷ x ∷ y ∷ h ∷ p ∷ a ∷ q ∷ []) laid)
with_frag-Laid u s x y h p a q f (some v) laid (w, e, k) small =
    lay u (s ∷ x ∷ y ∷ h ∷ p ∷ a ∷ q ∷ []) f (length v.encoded + 1) laid (omega arith)
      (omega (arith, ap length e, ap length (k.0))) small

-- The path rule's text is its string.
abbrev pub Whole : (Bytes → Range → Type 0) → Type 0
Whole F = (a : Bytes) (r : Range) → F a r → r.string ≡ a

module _ (S : Bytes → Type 0) (F : Bytes → Range → Type 0) (E : Bytes → Type 0) where
  pub url_table :
      Whole F
      → (u : Url) (s t q f : Bytes) (hv : HierPart) (qv : Option Range) (fv : Option PctEncodedView)
      → Laid u (s ∷ [])
      → S s
      → IsHierPart F t hv
      → IsQueryPart q qv
      → IsFragmentPart f fv
      → E f
      → length (s ++ (t ++ (q ++ f))) ≤ max_size
      → UrlTable S F E (s ++ (t ++ (q ++ f))) (with_frag fv (with_query qv (with_hier_part hv u)))
  url_table k u s t q f hv qv fv laid is_s is_t is_q is_f e small =
      let sizes : length s + (length t + (length q + length f)) ≤ max_size = omega (
        arith,
        small,
        length-append s (t ++ (q ++ f)),
        length-append t (q ++ f),
        length-append q f,
      ) in
      let hier = with_hier_part-Laid F u s t hv k laid is_t (omega (arith, sizes)) in
      let parts : length t
          ≡ length hier.x + (length hier.y + (length hier.h + (length hier.p + length hier.a))) =
        omega (
          arith,
          ap length hier.whole,
          length-append hier.x (hier.y ++ (hier.h ++ (hier.p ++ hier.a))),
          length-append hier.y (hier.h ++ (hier.p ++ hier.a)),
          length-append hier.h (hier.p ++ hier.a),
          length-append hier.p hier.a,
        ) in
      record {
        s = s;
        x = hier.x;
        y = hier.y;
        h = hier.h;
        p = hier.p;
        a = hier.a;
        q = q;
        f = f;
        whole = ap (λ z. s ++ (z ++ (q ++ f))) hier.whole ∙ simp append_assoc;
        laid =
            with_frag-Laid _ s hier.x hier.y hier.h hier.p hier.a q f fv
              (with_query-Laid (with_hier_part hv u) s hier.x hier.y hier.h hier.p hier.a q qv
                hier.laid is_q (omega (arith, sizes, parts)))
              is_f (omega (arith, sizes, parts));
        scheme_text = is_s;
        hier_text = hier.texts;
        query_text = (qv, is_q);
        fragment_text = e;
      }
