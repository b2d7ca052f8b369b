-- ===== src/Pct/View.antt =====
-- `pct_encoded_view`: an encoded string that is read with percent-decoding applied.
-- pct_encoded_view.hpp, impl/pct_encoded_view.hpp and impl/pct_encoded_view.ipp.
pub mod RoundTrip
use boost_url.Base.{
  ℕ, zero, suc, Bool, false, not, ◌&&◌, Option, none, some, [], ◌∷◌, ◌==◌, if◌then◌else◌, Bytes,
  length, Result, invalid_argument, err, ok,
}
use boost_url.Pct.Decode.{decode_hex, PctDecodeOpts}
use boost_url.Pct.Validate.{validate_pct_encoding}
use mathlib.Core.Option

pub record PctEncodedView : Type 0 where
  pub encoded : Bytes
  pub dn_ : ℕ
  pub plus_to_space_ : Bool

-- The unchecked constructor.
unfoldable pub construct : Bytes → ℕ → PctDecodeOpts → PctEncodedView
construct s n opt = record { encoded = s; dn_ = n; plus_to_space_ = opt.plus_to_space }

-- The checking constructor.
unfoldable pub pct_encoded_view : Bytes → PctDecodeOpts → Result PctEncodedView
unfolding validate_pct_encoding
pct_encoded_view s opt =
    elim (validate_pct_encoding s (record opt { non_normal_is_error = false })) [
      | err _ ↦ err invalid_argument
      | ok n ↦ ok (record { encoded = s; dn_ = n; plus_to_space_ = opt.plus_to_space })
    ]

-- An iterator is the characters from its position to the end. What stands behind a '%', where the
-- source reads two more characters: `none` if they are behind the end.
unfoldable pub digits_behind : Bytes → Option (ℕ × Bytes)
digits_behind (h ∷ l ∷ s) = some (decode_hex h l, s)
digits_behind _ = none

-- `operator*` at `c`, with `s` behind it.
unfoldable pub deref : Bool → ℕ → Bytes → Option ℕ
unfolding digits_behind
deref plus c s =
    if plus && c == b'+'
    then some b' '
    else if not (c == b'%')
    then some c
    else Option.map (λ p. p.0) (digits_behind s)

-- `operator++`
unfoldable pub advance : ℕ → Bytes → Option Bytes
unfolding digits_behind
advance c s = if not (c == b'%') then some s else Option.map (λ p. p.1) (digits_behind s)

-- From an iterator to the end, with as much fuel as there are characters.
unfoldable pub read_from : ℕ → Bool → Bytes → Option Bytes
unfolding deref advance
read_from fuel plus [] = some []
read_from zero plus (c ∷ s) = none
read_from (suc fuel) plus (c ∷ s) = elim (deref plus c s) [
  | none ↦ none
  | some b ↦ elim (advance c s) [
    | none ↦ none
    | some rest ↦ Option.map (◌∷◌ b) (read_from fuel plus rest)
  ]
]

-- `append_to` an empty string.
unfoldable pub contents : PctEncodedView → Option Bytes
unfolding read_from
contents v = read_from (length v.encoded) v.plus_to_space_ v.encoded
