-- ===== src/Pct/Bounds.antt =====
-- What the functions write stays within the room that they are given.
use boost_url.Base.{
  ℕ, zero, suc, ◌-◌, ◌≤◌, inl, inr, Bool, [], ◌∷◌, arith, ltb, Bool-cases, Bytes, ltb→ge, length,
  Option-cases, length-append, length-replicate,
}
use boost_url.Chars.{CharSet}
use boost_url.Pct.Decode.{read_one, decode_loop, pct_decode_unchecked, PctDecodeOpts}
use boost_url.Pct.Encode.{encode_one, pct_encode, PctEncodeOpts}

-- The loop writes no more than its room, and returns no more than it has written.
decode_loop_bounds :
    (room : ℕ) (plus : Bool) (s : Bytes)
    → (length (decode_loop room plus s).bytes ≤ room)
      × ((decode_loop room plus s).count ≤ length (decode_loop room plus s).bytes)
unfolding decode_loop
decode_loop_bounds room plus [] = (omega arith, omega arith)
decode_loop_bounds zero plus (c ∷ s) = (omega arith, omega arith)
decode_loop_bounds (suc room) plus (c ∷ s) = elim (Option-cases (read_one plus c s)) [
  | inl e ↦ rw (e, decode_loop) (omega (arith, length-replicate room (zero)), omega arith)
  | inr ((b, rest), e) ↦ rw (e, decode_loop) (omega (arith, decode_loop_bounds room plus rest))
]

-- `pct_decode_unchecked` writes at most the room between `dest` and `end`, whatever the input and
-- the options, and returns at most the number of bytes that it has written.
pub pct_decode_unchecked_bounds :
    (room : ℕ) (s : Bytes) (opt : PctDecodeOpts)
    → (length (pct_decode_unchecked room s opt).bytes ≤ room)
      × ((pct_decode_unchecked room s opt).count ≤ length (pct_decode_unchecked room s opt).bytes)
unfolding pct_decode_unchecked
pct_decode_unchecked_bounds room s opt = decode_loop_bounds room opt.plus_to_space s

length-encode_one :
    (allowed : CharSet) (opt : PctEncodeOpts) (c : ℕ) → 1 ≤ length (encode_one allowed opt c)
unfolding encode_one
length-encode_one allowed opt c = ground arith

-- `pct_encode` writes at most its room.
pub length-pct_encode-le :
    (room : ℕ) (s : Bytes) (allowed : CharSet) (opt : PctEncodeOpts)
    → length (pct_encode room s allowed opt) ≤ room
unfolding pct_encode
length-pct_encode-le room [] allowed opt = omega arith
length-pct_encode-le room (c ∷ s) allowed opt =
    elim (Bool-cases (ltb room (length (encode_one allowed opt c)))) [
      | inl small ↦ rw small (omega arith)
      | inr fits ↦ rw fits (
          omega (
            arith,
            length-append (encode_one allowed opt c)
                (pct_encode (room - length (encode_one allowed opt c)) s allowed opt),
            length-pct_encode-le (room - length (encode_one allowed opt c)) s allowed opt,
            ltb→ge fits,
          ))
    ]
