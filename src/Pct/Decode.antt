-- ===== src/Pct/Decode.antt =====
-- `pct_decode_bytes_unchecked` and `pct_decode_unchecked` of impl/pct_encoding.ipp.
use boost_url.Base.{
  ℕ, zero, suc, ◌+◌, ◌*◌, ◌%◌, Bool, true, false, ◌&&◌, Option, none, some, [], ◌∷◌, ◌==◌,
  if◌then◌else◌, Bytes, replicate,
}
use boost_url.Chars.{hexdig_value}

pub record PctDecodeOpts : Type 0 where
  pub allow_null : Bool
  pub plus_to_space : Bool
  pub non_normal_is_error : Bool

unfoldable pub pct_decode_bytes_unchecked : Bytes → ℕ
pct_decode_bytes_unchecked [] = 0
pct_decode_bytes_unchecked (c ∷ []) = if c == b'%' then 0 else 1
pct_decode_bytes_unchecked (c ∷ d ∷ []) = elim (c == b'%') [
  | true ↦ 0
  | false ↦ suc (pct_decode_bytes_unchecked (d ∷ []))
]
pct_decode_bytes_unchecked (c ∷ d ∷ e ∷ s) = elim (c == b'%') [
  | true ↦ suc (pct_decode_bytes_unchecked s)
  | false ↦ suc (pct_decode_bytes_unchecked (d ∷ e ∷ s))
]

-- The digit -1 cast to `unsigned char`.
abbrev pub as_uchar : Option ℕ → ℕ
as_uchar none = 255
as_uchar (some d) = d

unfoldable pub decode_hex : ℕ → ℕ → ℕ
decode_hex h l = (as_uchar (hexdig_value h) * 16 + as_uchar (hexdig_value l)) % 256

-- What is written from `dest` on, and the number that is returned.
pub record Decoded : Type 0 where
  pub bytes : Bytes
  pub count : ℕ

abbrev pub written : ℕ → Decoded → Decoded
written c d = record { bytes = c ∷ d.bytes; count = suc d.count }

-- The two bytes behind a '%', and the input behind them.
unfoldable pub read_escape : Bytes → Option (ℕ × Bytes)
read_escape (h ∷ l ∷ s) = some (decode_hex h l, s)
read_escape _ = none

-- One round of the loop: the byte to write and the input that is left, or missing input.
unfoldable pub read_one : Bool → ℕ → Bytes → Option (ℕ × Bytes)
unfolding read_escape
read_one plus c s =
    if plus && c == b'+' then some (b' ', s) else if c == b'%' then read_escape s else some (c, s)

unfoldable pub decode_loop : ℕ → Bool → Bytes → Decoded
decode_loop room plus [] = record { bytes = []; count = 0 }
decode_loop zero plus (c ∷ s) = record { bytes = []; count = 0 }
decode_loop (suc room) plus (c ∷ s) = elim (read_one plus c s) [
  | none ↦ record { bytes = replicate (suc room) 0; count = 0 }
  | some (b, rest) ↦ written b (decode_loop room plus rest)
]

unfoldable pub pct_decode_unchecked : ℕ → Bytes → PctDecodeOpts → Decoded
unfolding decode_loop
pct_decode_unchecked room s opt = decode_loop room opt.plus_to_space s
