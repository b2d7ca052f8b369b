-- ===== src/Rfc/Path/Ends.antt =====
-- The rules for paths take all the segments that there are.
use boost_url.Base.{
  ◌≤◌, ◌<◌, ◌≡◌, ap, ◌⊎◌, inl, inr, arith, Bytes, length, Holds, Error, mismatch, err, ok,
}
use boost_url.Chars.{pchars}
use boost_url.Grammar.{Rule, delim_rule, ◌>>◌}
use boost_url.Pct.View.{PctEncodedView}
use boost_url.Range.{no_limit, range_rule, Range}
use boost_url.Range.Ends.{Yields-Advances, Yields-shorter, range_rule-Outcome}
use boost_url.Range.Laws.{Advances, Stops}
use boost_url.Rfc.Path.{
  segment_rule, segment_nz_rule, no_colon_chars, segment_nz_nc_rule, slash_segment_rule,
  segment_ns_rule, path_abempty_rule, path_absolute_rule, path_noscheme_rule, path_rootless_rule,
}
use boost_url.Rfc.Path.Yields.{IsSlashSegment, IsSlashSegment-Yields, nz-Yields, first-Yields}

slash_segment-Advances : Advances (delim_rule b'/' >> segment_rule)
slash_segment-Advances =
    Yields-Advances IsSlashSegment (delim_rule b'/' >> segment_rule) IsSlashSegment-Yields
      (λ t (u, e, _). omega (arith, ap length e))

-- A path's rule ends where it cannot read a '/' and a segment.
abbrev pub IsWhole : Rule Range → Bytes → Type 0
IsWhole r s = (p : Range × Bytes) × (r s ≡ ok p) × Stops slash_segment_rule (p.1)

-- It reads its first segment.
abbrev pub IsRead : Rule PctEncodedView → Bytes → Type 0
IsRead first s = (q : PctEncodedView × Bytes) × (first s ≡ ok q)

-- The rule fails, for it cannot read the first segment.
abbrev pub IsMissing : Rule PctEncodedView → Rule Range → Bytes → Type 0
IsMissing first r s = (why : Error) × (first s ≡ err why) × (r s ≡ err mismatch)

-- A rule that needs its first segment: it fails where it cannot read that, and nowhere else.
first_needed :
    (first : Rule PctEncodedView)
    → ((s : Bytes) → Holds (λ (p : PctEncodedView × Bytes). length (p.1) ≤ length s) (first s))
    → (s : Bytes) → length s < no_limit
    → IsMissing first (range_rule first slash_segment_rule 1 no_limit) s
      ⊎ (IsRead first s × IsWhole (range_rule first slash_segment_rule 1 no_limit) s)
unfolding slash_segment_rule segment_rule
first_needed first short s small =
    elim (range_rule-Outcome first slash_segment_rule slash_segment-Advances short 1 no_limit s
      (omega arith) small) [
        | inl missing ↦ inl missing
        | inr (q, e, (p, f, _, stops)) ↦ inr ((q, e), (p, f, stops))
      ]

none_needed : (s : Bytes) → length s < no_limit → IsWhole path_abempty_rule s
unfolding path_abempty_rule slash_segment_rule segment_rule
none_needed s small =
    elim (range_rule-Outcome (delim_rule b'/' >> segment_rule) (delim_rule b'/' >> segment_rule)
      slash_segment-Advances (Yields-shorter _ _ IsSlashSegment-Yields) 0 no_limit s (omega arith)
      small) [ inl (why, e, f) ↦ (_, f, (why, e)) | inr (_, _, (p, f, _, stops)) ↦ (p, f, stops) ]

-- The rules for paths take all the segments that there are, for an input of less than 2 ^ 64 - 1
-- characters: the loops end with the fuel that they are given, and a rule that succeeds leaves an input on
-- which a '/' and a segment cannot be read. `path_abempty_rule` always succeeds; each of the other
-- three fails where it cannot read its first segment, and nowhere else.
pub path_rules-NoMore :
    (s : Bytes)
    → length s < no_limit
    → IsWhole path_abempty_rule s
      × (IsMissing (delim_rule b'/' >> segment_ns_rule) path_absolute_rule s
          ⊎ (IsRead (delim_rule b'/' >> segment_ns_rule) s × IsWhole path_absolute_rule s))
      × (IsMissing segment_nz_nc_rule path_noscheme_rule s
          ⊎ (IsRead segment_nz_nc_rule s × IsWhole path_noscheme_rule s))
      × (IsMissing segment_nz_rule path_rootless_rule s
          ⊎ (IsRead segment_nz_rule s × IsWhole path_rootless_rule s))
unfolding path_absolute_rule path_noscheme_rule path_rootless_rule segment_nz_rule
    segment_nz_nc_rule
path_rules-NoMore s small = (
  none_needed s small,
  first_needed _ (Yields-shorter _ _ first-Yields) s small,
  first_needed _ (Yields-shorter _ _ (nz-Yields no_colon_chars)) s small,
  first_needed _ (Yields-shorter _ _ (nz-Yields pchars)) s small,
)
