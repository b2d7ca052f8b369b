-- ===== src/Tests/Pct.antt =====
-- Percent-encoding.
use boost_url.Base.{
  ℕ, ◌≤◌, ◌<◌, ◌≡◌, refl, ◌↔◌, true, false, [], ◌∷◌, arith, Bytes, codes, length, bad_pct_hexdig,
  ok, err,
}
use boost_url.Chars.{hexdig_value, unreserved_chars}
use boost_url.Pct.Bounds.{pct_decode_unchecked_bounds}
use boost_url.Pct.Decode.{decode_hex, read_one, pct_decode_unchecked, PctDecodeOpts}
use boost_url.Pct.Encode.{pct_encode_bytes, pct_encode_to_string, PctEncodeOpts}
use boost_url.Pct.Exact.{encode_all, pct_encode_to_string-exact}
use boost_url.Pct.Grammar.{plain_in_set, escape_in_set, validate_in_set_iff, Encoded}
use boost_url.Pct.RoundTrip.{IsByte, pct_decode-pct_encode_to_string}
use boost_url.Pct.Total.{DecodesTo, pct_decode_in_set_lem}
use boost_url.Pct.Validate.{
  judge, bad_digits, judge_escape, validate_in_set, pct_decode, pct_decode_in_set,
}

abbrev form : PctEncodeOpts
form = record { space_to_plus = true }

abbrev lenient : PctDecodeOpts
lenient = record { allow_null = true; plus_to_space = true; non_normal_is_error = false }

abbrev strict : PctDecodeOpts
strict = record { allow_null = false; plus_to_space = false; non_normal_is_error = true }

abbrev text : Bytes
text = codes "a b%c"

encode_text : pct_encode_to_string text unreserved_chars form ≡ codes "a+b%25c"
unfolding pct_encode_to_string unreserved_chars
encode_text = refl

decode_short :
    pct_decode_unchecked 3 (codes "a%4") lenient ≡ record { bytes = b'a' ∷ 0 ∷ 0 ∷ []; count = 1 }
unfolding pct_decode_unchecked read_one
decode_short = refl

validate_bad : validate_in_set unreserved_chars strict (codes "a%4x") ≡ err bad_pct_hexdig
unfolding validate_in_set judge judge_escape hexdig_value unreserved_chars
validate_bad = refl

pct_decode-pct_encode_to_string_example :
    pct_decode 5 (pct_encode_to_string text unreserved_chars form) lenient
    ≡ ok (record { bytes = text; count = 5 })
pct_decode-pct_encode_to_string_example =
    pct_decode-pct_encode_to_string unreserved_chars form lenient (unfold unreserved_chars in refl)
      refl (λ _. unfold unreserved_chars in refl) text
      (
        fine (omega arith),
        (fine (omega arith), (fine (omega arith), (fine (omega arith), (fine (omega arith), tt)))),
      )
  where
    fine : {c : ℕ} → c < 256 → IsByte lenient c
    fine h = (h, λ e. cc)

validate_in_set_iff_example :
    (validate_in_set unreserved_chars strict (codes "a%20b") ≡ ok 3)
    ↔ Encoded
        (plain_in_set unreserved_chars strict)
        (escape_in_set unreserved_chars strict)
        (codes "a%20b")
        3
validate_in_set_iff_example =
    validate_in_set_iff unreserved_chars strict (unfold unreserved_chars in refl) (codes "a%20b") 3

pct_decode_in_set_lem_example :
    DecodesTo 3 2
      (codes "a%20b")
      strict
      (pct_decode_in_set unreserved_chars 2 (codes "a%20b") strict)
pct_decode_in_set_lem_example =
    pct_decode_in_set_lem unreserved_chars 2 3 (codes "a%20b") strict
      (unfold unreserved_chars in refl)
      (unfold validate_in_set judge judge_escape bad_digits decode_hex hexdig_value
          unreserved_chars in
        refl)

pct_encode_to_string-exact_example :
    (pct_encode_to_string text unreserved_chars form ≡ encode_all unreserved_chars form text)
    × (length (pct_encode_to_string text unreserved_chars form)
        ≡ pct_encode_bytes unreserved_chars form text)
pct_encode_to_string-exact_example = pct_encode_to_string-exact unreserved_chars form text

pct_decode_unchecked_bounds_example :
    (length (pct_decode_unchecked 3 (codes "a%4") lenient).bytes ≤ 3)
    × ((pct_decode_unchecked 3 (codes "a%4") lenient).count
        ≤ length (pct_decode_unchecked 3 (codes "a%4") lenient).bytes)
pct_decode_unchecked_bounds_example = pct_decode_unchecked_bounds 3 (codes "a%4") lenient
