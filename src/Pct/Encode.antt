-- ===== src/Pct/Encode.antt =====
-- `pct_encode_bytes`, `pct_encode` and `pct_encode_to_string` of impl/pct_encoding.hpp.
use boost_url.Base.{
  ℕ, ◌+◌, ◌-◌, ◌/◌, ◌%◌, Bool, ◌&&◌, [], ◌∷◌, ◌++◌, ltb, ◌==◌, if◌then◌else◌, Bytes, length,
}
use boost_url.Chars.{CharSet}

pub record PctEncodeOpts : Type 0 where
  pub space_to_plus : Bool

-- `hex[n]`
abbrev pub hex_digit : ℕ → ℕ
hex_digit n = if ltb n 10 then n + b'0' else n - 10 + b'a'

unfoldable pub pct_encode_bytes : CharSet → PctEncodeOpts → Bytes → ℕ
pct_encode_bytes allowed opt [] = 0
pct_encode_bytes allowed opt (c ∷ s) =
    let rest = pct_encode_bytes allowed opt s in
    if opt.space_to_plus && c == b' ' then rest + 1 else if allowed c then rest + 1 else rest + 3

-- The bytes that one input byte becomes: `u >> 4` and `u & 0xf` are the two digits.
unfoldable pub encode_one : CharSet → PctEncodeOpts → ℕ → Bytes
encode_one allowed opt c =
    if allowed c
    then c ∷ []
    else if opt.space_to_plus && c == b' '
    then b'+' ∷ []
    else b'%' ∷ hex_digit (c / 16) ∷ hex_digit (c % 16) ∷ []

-- The loop stops where the room is too small for the next byte or escape.
unfoldable pub pct_encode : ℕ → Bytes → CharSet → PctEncodeOpts → Bytes
unfolding encode_one
pct_encode room [] allowed opt = []
pct_encode room (c ∷ s) allowed opt =
    let e = encode_one allowed opt c in
    let rest = pct_encode (room - length e) s allowed opt in
    if ltb room (length e) then [] else e ++ rest

unfoldable pub pct_encode_to_string : Bytes → CharSet → PctEncodeOpts → Bytes
unfolding pct_encode pct_encode_bytes
pct_encode_to_string s allowed opt = pct_encode (pct_encode_bytes allowed opt s) s allowed opt
