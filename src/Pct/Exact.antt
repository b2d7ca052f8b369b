-- ===== src/Pct/Exact.antt =====
-- `pct_encode_bytes` is the size of the encoding, so `pct_encode_to_string` is never cut short.
use boost_url.Base.{
  ℕ, ◌+◌, ◌-◌, ◌≤◌, ◌≡◌, refl, ap, ◌∙◌, inl, inr, [], ◌∷◌, ◌++◌, arith, ltb, Bool-cases, ltb→lt,
  Bytes, length, length-append,
}
use boost_url.Chars.{CharSet}
use boost_url.Pct.Encode.{
  pct_encode_bytes, encode_one, pct_encode, pct_encode_to_string, PctEncodeOpts,
}

-- The whole encoding, as one expects it: each byte's, one behind the other.
abbrev pub encode_all : CharSet → PctEncodeOpts → Bytes → Bytes
encode_all allowed opt [] = []
encode_all allowed opt (c ∷ s) = encode_one allowed opt c ++ encode_all allowed opt s

module _ (allowed : CharSet) (opt : PctEncodeOpts) where
  -- The two functions agree on one byte, in whichever order they test it.
  encode_bytes-cons :
      (c : ℕ) (s : Bytes)
      → pct_encode_bytes allowed opt (c ∷ s)
        ≡ length (encode_one allowed opt c) + pct_encode_bytes allowed opt s
  unfolding pct_encode_bytes encode_one
  encode_bytes-cons c s = ground arith

  pub length-encode_all :
      (s : Bytes) → length (encode_all allowed opt s) ≡ pct_encode_bytes allowed opt s
  length-encode_all [] = unfold pct_encode_bytes in refl
  length-encode_all (c ∷ s) = omega (
    arith,
    length-append (encode_one allowed opt c) (encode_all allowed opt s),
    length-encode_all s,
    encode_bytes-cons c s,
  )

  pub pct_encode-eq-encode_all :
      (room : ℕ) (s : Bytes)
      → length (encode_all allowed opt s) ≤ room
      → pct_encode room s allowed opt ≡ encode_all allowed opt s
  unfolding pct_encode
  pct_encode-eq-encode_all room [] h = refl
  pct_encode-eq-encode_all room (c ∷ s) h =
      let e = encode_one allowed opt c in
      let total = length-append e (encode_all allowed opt s) in
      elim (Bool-cases (ltb room (length e))) [
        | inl small ↦ absurd (omega (arith, total, ltb→lt room (length e) small))
        | inr fits ↦
            rw fits
              (ap (◌++◌ e) (pct_encode-eq-encode_all (room - length e) s (omega (arith, total))))
      ]

  -- The size that `pct_encode_bytes` computes is exact: with that much room `pct_encode` writes the
  -- encoding of every byte of the input, in order, and returns that size, so that the assertion
  -- in `pct_encode_to_string` holds.
  pub pct_encode_to_string-exact :
      (s : Bytes)
      → (pct_encode_to_string s allowed opt ≡ encode_all allowed opt s)
        × (length (pct_encode_to_string s allowed opt) ≡ pct_encode_bytes allowed opt s)
  unfolding pct_encode_to_string
  pct_encode_to_string-exact s =
      let whole =
        pct_encode-eq-encode_all (pct_encode_bytes allowed opt s) s
          (omega (arith, length-encode_all s)) in
      (whole, ap length whole ∙ length-encode_all s)
