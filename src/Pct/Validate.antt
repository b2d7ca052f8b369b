-- ===== src/Pct/Validate.antt =====
-- The two overloads of `validate_pct_encoding` and of `pct_decode`.
use boost_url.Base.{
  ℕ, suc, ◌-◌, ◌*◌, Bool, true, false, not, ◌&&◌, ◌||◌, Option, none, some, [], ◌∷◌, ltb, ◌==◌,
  if◌then◌else◌, Bytes, length, ◌>>=◌, Error, Result, illegal_null, illegal_reserved_char,
  non_canonical, bad_pct_hexdig, missing_pct_hexdig, no_space, ok, err,
}
use boost_url.Chars.{CharSet, hexdig_chars, hexdig_value}
use boost_url.Pct.Decode.{decode_hex, pct_decode_unchecked, PctDecodeOpts, Decoded}

abbrev pub is_safe : Bool → CharSet
is_safe allow_null c = not (c == b'%') && (allow_null || not (c == 0))

-- The checks on a '%' with two bytes behind it.
unfoldable pub bad_escape : Bool → ℕ → ℕ → Option Error
bad_escape allow_null d e =
    if not (hexdig_chars d) || not (hexdig_chars e)
    then some bad_pct_hexdig
    else if not allow_null && (d == b'0' && e == b'0')
    then some illegal_null
    else none

abbrev unsafe_end : ℕ → Result ℕ
unsafe_end c = if c == 0 then err illegal_null else err missing_pct_hexdig

abbrev pub one_more : Result ℕ → Result ℕ
one_more r = do n ← r; ok (suc n)

-- The loop: the number of escapes.
unfoldable pub count_pcts : Bool → Bytes → Result ℕ
count_pcts allow_null [] = ok 0
count_pcts allow_null (c ∷ []) = if is_safe allow_null c then ok 0 else unsafe_end c
count_pcts allow_null (c ∷ d ∷ []) = elim (is_safe allow_null c) [
  | true ↦ count_pcts allow_null (d ∷ [])
  | false ↦ unsafe_end c
]
count_pcts allow_null (c ∷ d ∷ e ∷ s) = elim (is_safe allow_null c) [
  | true ↦ count_pcts allow_null (d ∷ e ∷ s)
  | false ↦ elim (c == 0) [
    | true ↦ err illegal_null
    | false ↦ elim (bad_escape allow_null d e) [
      | some why ↦ err why
      | none ↦ one_more (count_pcts allow_null s)
    ]
  ]
]

-- The overload with no character set.
unfoldable pub validate_pct_encoding : Bytes → PctDecodeOpts → Result ℕ
unfolding count_pcts
validate_pct_encoding s opt = do pcts ← count_pcts opt.allow_null s; ok (length s - pcts * 2)

-- What the loop over a character set does at a byte.
pub data Verdict : Type 0 where
  plain escape : Verdict
  refused : Error → Verdict

unfoldable pub judge : CharSet → PctDecodeOpts → ℕ → Verdict
judge allowed opt c =
    if not opt.allow_null && c == 0
    then refused illegal_null
    else if allowed c
    then plain
    else if c == b'%'
    then escape
    else refused illegal_reserved_char

unfoldable pub bad_digits : CharSet → PctDecodeOpts → ℕ → Option Error
bad_digits allowed opt c =
    if not opt.allow_null && c == 0
    then some illegal_null
    else if opt.non_normal_is_error && allowed c
    then some non_canonical
    else none

-- The checks behind a '%': two digits, then those on the byte that they stand for.
unfoldable pub judge_escape : CharSet → PctDecodeOpts → ℕ → ℕ → Option Error
unfolding bad_digits
judge_escape allowed opt d e = elim (hexdig_value d) [
  | none ↦ some bad_pct_hexdig
  | some _ ↦ elim (hexdig_value e) [
    | none ↦ some bad_pct_hexdig
    | some _ ↦ bad_digits allowed opt (decode_hex d e)
  ]
]

-- The overload with a character set.
unfoldable pub validate_in_set : CharSet → PctDecodeOpts → Bytes → Result ℕ
validate_in_set allowed opt [] = ok 0
validate_in_set allowed opt (c ∷ []) = elim (judge allowed opt c) [
  | plain ↦ ok 1
  | escape ↦ err missing_pct_hexdig
  | refused why ↦ err why
]
validate_in_set allowed opt (c ∷ d ∷ []) = elim (judge allowed opt c) [
  | plain ↦ one_more (validate_in_set allowed opt (d ∷ []))
  | escape ↦ err missing_pct_hexdig
  | refused why ↦ err why
]
validate_in_set allowed opt (c ∷ d ∷ e ∷ s) = elim (judge allowed opt c) [
  | plain ↦ one_more (validate_in_set allowed opt (d ∷ e ∷ s))
  | escape ↦ elim (judge_escape allowed opt d e) [
    | some why ↦ err why
    | none ↦ one_more (validate_in_set allowed opt s)
  ]
  | refused why ↦ err why
]

-- `if(n1 < *rn) return error::no_space; return n1;`, with what was written.
abbrev pub checked : ℕ → Decoded → Result Decoded
checked n d = if ltb d.count n then err no_space else ok d

unfoldable pub pct_decode : ℕ → Bytes → PctDecodeOpts → Result Decoded
unfolding validate_pct_encoding pct_decode_unchecked
pct_decode room s opt = do
  n ← validate_pct_encoding s opt
  checked n (pct_decode_unchecked room s opt)

unfoldable pub pct_decode_in_set : CharSet → ℕ → Bytes → PctDecodeOpts → Result Decoded
unfolding validate_in_set pct_decode_unchecked
pct_decode_in_set allowed room s opt = do
  n ← validate_in_set allowed opt s
  checked n (pct_decode_unchecked room s opt)
