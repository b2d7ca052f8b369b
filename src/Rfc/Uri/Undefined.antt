-- ===== src/Rfc/Uri/Undefined.antt =====
-- Where `relative_part_rule` reads the value of a result that is an error.
use boost_url.Base.{ℕ, ◌≡◌, refl, ◌∙◌, false, ◌∷◌, Bytes, Error, mismatch, invalid, undefined, err}
use boost_url.Chars.{unreserved_chars, sub_delim_chars, pchars}
use boost_url.Grammar.{Rule, delim_rule, ◌>>=◌, ◌>>◌}
use boost_url.Range.{no_limit, range_rule}
use boost_url.Rfc.Path.{segment_rule, slash_segment_rule, segment_ns_rule, path_absolute_rule}
use boost_url.Rfc.PctEncoded.{hex_pair, pct_scan, pct_encoded_rule}
use boost_url.Rfc.Uri.{
  made, absolute_part, hier_part_rule, untested_absolute_part, relative_part_rule,
  relative_ref_parts, relative_ref_rule,
}
use boost_url.Url.{Url}

pct_outside : pchars b'%' ≡ false
unfolding pchars unreserved_chars sub_delim_chars
pct_outside = refl

scan-bad :
    (z y : ℕ) (s : Bytes)
    → hex_pair z y ≡ false
    → pct_scan pchars false 0 (b'%' ∷ z ∷ y ∷ s) ≡ err invalid
unfolding pct_scan
scan-bad z y s h = rw (pct_outside, pct_scan, h) refl

segment_rule-bad :
    (z y : ℕ) (s : Bytes) → hex_pair z y ≡ false → segment_rule (b'%' ∷ z ∷ y ∷ s) ≡ err invalid
unfolding segment_rule pct_encoded_rule
segment_rule-bad z y s h = rw (scan-bad z y s h, pct_encoded_rule) refl

segment_ns_rule-bad :
    (z y : ℕ) (s : Bytes) → hex_pair z y ≡ false → segment_ns_rule (b'%' ∷ z ∷ y ∷ s) ≡ err invalid
unfolding segment_ns_rule
segment_ns_rule-bad z y s h = segment_rule-bad z y s h

range_rule-first {ℓ κ} :
    {S : Type ℓ} {T : Type κ} (first : Rule S) (next : Rule T) (hi : ℕ) (s : Bytes) (why : Error)
    → first s ≡ err why
    → range_rule first next 1 hi s ≡ err mismatch
unfolding range_rule
range_rule-first first next hi s why e = rw (e, range_rule) refl

slash-skip {ℓ} : {T : Type ℓ} (r : Rule T) (s : Bytes) → (delim_rule b'/' >> r) (b'/' ∷ s) ≡ r s
unfolding delim_rule
slash-skip r s = refl

path_absolute_rule-bad :
    (z y : ℕ) (s : Bytes)
    → hex_pair z y ≡ false
    → path_absolute_rule (b'/' ∷ b'%' ∷ z ∷ y ∷ s) ≡ err mismatch
unfolding path_absolute_rule
path_absolute_rule-bad z y s h =
    range_rule-first (delim_rule b'/' >> segment_ns_rule) slash_segment_rule no_limit
      (b'/' ∷ b'%' ∷ z ∷ y ∷ s) invalid
      (slash-skip segment_ns_rule (b'%' ∷ z ∷ y ∷ s) ∙ segment_ns_rule-bad z y s h)

pub bind-err {ℓ κ} :
    {S : Type ℓ} {T : Type κ} (r : Rule S) (next : S → Rule T) (s : Bytes) (why : Error)
    → r s ≡ err why
    → (r >>= next) s ≡ err why
bind-err r next s why e = rw (e, ◌>>=◌) refl

pub made-err : (r : Rule Url) (s : Bytes) (why : Error) → r s ≡ err why → made r s ≡ err why
made-err r s why e = rw (e, made) refl

absolute_part-err :
    (s : Bytes) (why : Error) → path_absolute_rule s ≡ err why → absolute_part s ≡ err why
unfolding absolute_part
absolute_part-err s why e = bind-err path_absolute_rule _ s why e

untested-err :
    (s : Bytes) (why : Error)
    → path_absolute_rule s ≡ err why
    → untested_absolute_part s ≡ err undefined
unfolding untested_absolute_part
untested-err s why e = rw (e, untested_absolute_part) refl

relative_ref_rule-err :
    (s : Bytes) (why : Error) → relative_part_rule s ≡ err why → relative_ref_rule s ≡ err why
unfolding relative_ref_rule relative_ref_parts
relative_ref_rule-err s why e =
    made-err relative_ref_parts s why (bind-err relative_part_rule _ s why e)

hier_part_rule-absolute :
    (z y : ℕ) (s : Bytes)
    → hier_part_rule (b'/' ∷ b'%' ∷ z ∷ y ∷ s) ≡ absolute_part (b'/' ∷ b'%' ∷ z ∷ y ∷ s)
unfolding hier_part_rule
hier_part_rule-absolute z y s = refl

relative_part_rule-absolute :
    (z y : ℕ) (s : Bytes)
    → relative_part_rule (b'/' ∷ b'%' ∷ z ∷ y ∷ s)
      ≡ untested_absolute_part (b'/' ∷ b'%' ∷ z ∷ y ∷ s)
unfolding relative_part_rule
relative_part_rule-absolute z y s = refl

-- A '/' with a broken escape behind it is an error for `hier_part_rule`, and for
-- `relative_ref_rule` it is the reading of a value that is not there: for any two characters that are
-- not both hex digits behind the '%', and whatever follows.
pub relative_ref_rule_undefined :
    (z y : ℕ) (s : Bytes)
    → hex_pair z y ≡ false
    → (hier_part_rule (b'/' ∷ b'%' ∷ z ∷ y ∷ s) ≡ err mismatch)
      × (relative_ref_rule (b'/' ∷ b'%' ∷ z ∷ y ∷ s) ≡ err undefined)
relative_ref_rule_undefined z y s h =
    let bad = path_absolute_rule-bad z y s h in
    (
      hier_part_rule-absolute z y s ∙ absolute_part-err _ mismatch bad,
      relative_ref_rule-err _ undefined
          (relative_part_rule-absolute z y s ∙ untested-err _ mismatch bad),
    )
