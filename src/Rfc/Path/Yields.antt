-- ===== src/Rfc/Path/Yields.antt =====
-- The texts that the rules for paths take.
use boost_url.Base.{
  ◌<◌, ◌≡◌, refl, sym, ap, inl, inr, false, [], ◌∷◌, ◌++◌, ◌==◌, Bool-cases, Bytes, length,
  Holds-map,
}
use boost_url.Chars.{CharSet, pchars}
use boost_url.Grammar.{Rule, delim_rule, ◌>>◌, not_empty_rule}
use boost_url.Grammar.Yields.{
  Taken, Yields, Yields-bind, Yields-map, not_empty_rule-Yields, delim_rule-Yields,
}
use boost_url.Pct.View.{PctEncodedView}
use boost_url.Range.{no_limit, Range}
use boost_url.Range.Laws.{IsRange, range_rule-Yields}
use boost_url.Rfc.Path.{
  segment_rule, segment_nz_rule, no_colon_chars, segment_nz_nc_rule, slash_segment_rule,
  segment_ns_rule, path_abempty_rule, path_absolute_rule, path_noscheme_rule, path_rootless_rule,
}
use boost_url.Rfc.PctEncoded.{pct_encoded_rule, IsPctEncoded, pct_encoded_rule-Yields}

-- A segment, and one behind a '/'.
abbrev pub IsSegment : Bytes → Type 0
IsSegment t = (v : PctEncodedView) × IsPctEncoded pchars t v

abbrev pub IsSlashSegment : Bytes → Type 0
IsSlashSegment t = (u : Bytes) × (t ≡ b'/' ∷ u) × IsSegment u

-- segment-nz, and segment-nz-nc
abbrev pub IsSegmentNz : Bytes → Type 0
IsSegmentNz t = (0 < length t) × IsSegment t

abbrev pub IsSegmentNzNc : Bytes → Type 0
IsSegmentNzNc t = (0 < length t) × ((v : PctEncodedView) × IsPctEncoded no_colon_chars t v)

-- The first segment of path-absolute does not start with a '/'.
abbrev pub IsFirstSegment : Bytes → Type 0
IsFirstSegment [] = Unit
IsFirstSegment (c ∷ s) = ((c == b'/') ≡ false) × IsSegment (c ∷ s)

abbrev pub IsSlashFirst : Bytes → Type 0
IsSlashFirst t = (u : Bytes) × (t ≡ b'/' ∷ u) × IsFirstSegment u

segment_rule-Yields : Yields (λ t _. IsSegment t) segment_rule
unfolding segment_rule
segment_rule-Yields =
    Yields-map (IsPctEncoded pchars) (λ t _. IsSegment t) (pct_encoded_rule pchars)
      (pct_encoded_rule-Yields pchars) (λ t v h. (v, h))

-- A '/', then what another rule takes.
slash-Yields {ℓ} :
    {T : Type ℓ} (P : Bytes → Type 0) (r : Rule T)
    → Yields (λ t _. P t) r
    → Yields (λ t _. (u : Bytes) × (t ≡ b'/' ∷ u) × P u) (delim_rule b'/' >> r)
slash-Yields P r h =
    Yields-bind (λ t _. t ≡ b'/' ∷ []) (λ t _. (u : Bytes) × (t ≡ b'/' ∷ u) × P u) _
      (delim_rule b'/') (delim_rule-Yields b'/')
      (λ t v e. Yields-map (λ t1 _. P t1) _ r h (λ t1 w p. (t1, ap (λ x. x ++ t1) e, p)))

pub IsSlashSegment-Yields : Yields (λ t _. IsSlashSegment t) (delim_rule b'/' >> segment_rule)
IsSlashSegment-Yields = slash-Yields IsSegment segment_rule segment_rule-Yields

segment_ns_rule-Yields : Yields (λ t _. IsFirstSegment t) segment_ns_rule
unfolding segment_ns_rule
segment_ns_rule-Yields [] = ([], refl, tt)
segment_ns_rule-Yields (c ∷ s) = elim (Bool-cases (c == b'/')) [
  | inl slash ↦ rw slash tt
  | inr other ↦ rw other (
      Holds-map (Taken (λ t _. IsSegment t) (c ∷ s)) (Taken (λ t _. IsFirstSegment t) (c ∷ s))
        (segment_rule (c ∷ s)) (segment_rule-Yields (c ∷ s)) (first other))
]
  where
    first :
        (c == b'/') ≡ false
        → (p : PctEncodedView × Bytes) → Taken (λ t _. IsSegment t) (c ∷ s) p
        → Taken (λ t _. IsFirstSegment t) (c ∷ s) p
    first other p ([], e, h) = ([], e, tt)
    first other p (d ∷ t, e, h) = let same : c ≡ d = cc in (d ∷ t, e, (rw (sym same) other, h))

slash_segment_rule-Yields : Yields (λ t _. IsSlashSegment t) slash_segment_rule
unfolding slash_segment_rule segment_rule
slash_segment_rule-Yields = IsSlashSegment-Yields

pub nz-Yields :
    (cs : CharSet)
    → Yields
        (λ t _. (0 < length t) × ((v : PctEncodedView) × IsPctEncoded cs t v))
        (not_empty_rule (pct_encoded_rule cs))
nz-Yields cs =
    Yields-map (λ t v. (0 < length t) × IsPctEncoded cs t v) _
      (not_empty_rule (pct_encoded_rule cs))
      (not_empty_rule-Yields (IsPctEncoded cs) (pct_encoded_rule cs) (pct_encoded_rule-Yields cs))
      (λ t v (n, h). (n, (v, h)))

pub first-Yields : Yields (λ t _. IsSlashFirst t) (delim_rule b'/' >> segment_ns_rule)
first-Yields = slash-Yields IsFirstSegment segment_ns_rule segment_ns_rule-Yields

-- *( "/" segment )
abbrev pub IsPathAbempty : Bytes → Range → Type 0
IsPathAbempty = IsRange 0 IsSlashSegment IsSlashSegment

-- "/" [ segment-nz *( "/" segment ) ]
abbrev pub IsPathAbsolute : Bytes → Range → Type 0
IsPathAbsolute = IsRange 1 IsSlashFirst IsSlashSegment

-- segment-nz-nc *( "/" segment )
abbrev pub IsPathNoscheme : Bytes → Range → Type 0
IsPathNoscheme = IsRange 1 IsSegmentNzNc IsSlashSegment

-- segment-nz *( "/" segment )
abbrev pub IsPathRootless : Bytes → Range → Type 0
IsPathRootless = IsRange 1 IsSegmentNz IsSlashSegment

-- The four rules for paths.
pub path_rules_yield :
    Yields IsPathAbempty path_abempty_rule
    × Yields IsPathAbsolute path_absolute_rule
    × Yields IsPathNoscheme path_noscheme_rule
    × Yields IsPathRootless path_rootless_rule
unfolding path_abempty_rule path_absolute_rule path_noscheme_rule path_rootless_rule segment_nz_rule
    segment_nz_nc_rule
path_rules_yield = (
  range_rule-Yields IsSlashSegment IsSlashSegment _ _ IsSlashSegment-Yields IsSlashSegment-Yields 0
      no_limit,
  range_rule-Yields IsSlashFirst IsSlashSegment _ _ first-Yields slash_segment_rule-Yields 1
      no_limit,
  range_rule-Yields IsSegmentNzNc IsSlashSegment _ _ (nz-Yields no_colon_chars)
      slash_segment_rule-Yields 1 no_limit,
  range_rule-Yields IsSegmentNz IsSlashSegment _ _ (nz-Yields pchars) slash_segment_rule-Yields 1
      no_limit,
)
