-- ===== src/Pct/RoundTrip.antt =====
-- What was percent-encoded decodes back.
use boost_url.Base.{
  ℕ, suc, ◌+◌, ◌-◌, ◌*◌, ◌/◌, ◌%◌, ◌<◌, ◌≡◌, refl, ap, ◌∙◌, ◌≢◌, ◌⊎◌, inl, inr, Bool, true, false,
  ◌&&◌, none, some, [], ◌∷◌, ◌++◌, arith, ◌==◌, Bool-cases, Bytes, length, All, ok,
}
use boost_url.Chars.{CharSet, hexdig_chars, hexdig_value}
use boost_url.Pct.Decode.{
  decode_hex, written, read_one, decode_loop, pct_decode_unchecked, PctDecodeOpts,
}
use boost_url.Pct.Encode.{hex_digit, encode_one, pct_encode_to_string, PctEncodeOpts}
use boost_url.Pct.Exact.{encode_all, pct_encode_to_string-exact}
use boost_url.Pct.Validate.{
  is_safe, bad_escape, one_more, count_pcts, validate_pct_encoding, pct_decode,
}

hexdig_value-hex_digit : (n : ℕ) → n < 16 → hexdig_value (hex_digit n) ≡ some n
unfolding hexdig_value
hexdig_value-hex_digit n h = ground arith

hexdig_chars-hex_digit : (n : ℕ) → n < 16 → hexdig_chars (hex_digit n) ≡ true
unfolding hexdig_chars
hexdig_chars-hex_digit n h = ground arith

pub decode_hex-hex_digit :
    (c : ℕ) → c < 256 → decode_hex (hex_digit (c / 16)) (hex_digit (c % 16)) ≡ c
unfolding decode_hex
decode_hex-hex_digit c h =
    rw (hexdig_value-hex_digit (c / 16) (omega arith))
      (rw (hexdig_value-hex_digit (c % 16) (omega arith)) (omega arith))

hex_digits-zero :
    (c : ℕ) → c < 256 → c ≢ 0 → (hex_digit (c / 16) == b'0' && hex_digit (c % 16) == b'0') ≡ false
hex_digits-zero c h ne = ground arith

pub read_one-escape :
    (plus : Bool) (h l : ℕ) (s : Bytes) → read_one plus b'%' (h ∷ l ∷ s) ≡ some (decode_hex h l, s)
unfolding read_one
read_one-escape true h l s = refl
read_one-escape false h l s = refl

-- The validation loop at a safe byte, and at a good escape, whatever follows.
pub count_pcts-is_safe :
    (allow_null : Bool) (c : ℕ) (s : Bytes)
    → is_safe allow_null c ≡ true
    → count_pcts allow_null (c ∷ s) ≡ count_pcts allow_null s
unfolding count_pcts
count_pcts-is_safe allow_null c [] h = rw h
count_pcts-is_safe allow_null c (d ∷ []) h = rw (h, count_pcts)
count_pcts-is_safe allow_null c (d ∷ e ∷ s) h = rw (h, count_pcts)

pub count_pcts-escape :
    (allow_null : Bool) (d e : ℕ) (s : Bytes)
    → bad_escape allow_null d e ≡ none
    → count_pcts allow_null (b'%' ∷ d ∷ e ∷ s) ≡ one_more (count_pcts allow_null s)
unfolding count_pcts
count_pcts-escape allow_null d e s h = rw (h, count_pcts)

-- A byte that the decoder takes: a NUL only where the options allow it.
abbrev pub IsByte : PctDecodeOpts → ℕ → Type 0
IsByte opt c = (c < 256) × (opt.allow_null ≡ false → c ≢ 0)

module _ (allowed : CharSet) (eopt : PctEncodeOpts) (dopt : PctDecodeOpts)
    (no_pct : allowed b'%' ≡ false) (same : dopt.plus_to_space ≡ eopt.space_to_plus)
    (no_plus : dopt.plus_to_space ≡ true → allowed b'+' ≡ false) where
  -- What one byte becomes: itself, a '+', or an escape.
  pub encode_one-cases :
      (c : ℕ)
      → (allowed c ≡ true) × (encode_one allowed eopt c ≡ c ∷ [])
        ⊎ (dopt.plus_to_space ≡ true) × (c ≡ b' ') × (encode_one allowed eopt c ≡ b'+' ∷ [])
        ⊎ (encode_one allowed eopt c ≡ b'%' ∷ hex_digit (c / 16) ∷ hex_digit (c % 16) ∷ [])
  unfolding encode_one
  encode_one-cases c = elim (Bool-cases (allowed c)) [
    | inl yes' ↦ inl (yes', rw yes')
    | inr no' ↦ elim (Bool-cases (eopt.space_to_plus && c == b' ')) [
      | inl space ↦ inr (inl (ground arith, ground arith, rw (no', space)))
      | inr other ↦ inr (inr (rw (no', other)))
    ]
  ]

  -- The decoder at a byte of the set, and at an escape.
  read_one-allowed :
      (c : ℕ) (s : Bytes) → allowed c ≡ true → read_one dopt.plus_to_space c s ≡ some (c, s)
  unfolding read_one
  read_one-allowed c s h = ground arith

  -- One encoded byte is read back in one round.
  decode_loop-encode_one :
      (c room : ℕ) (rest : Bytes)
      → c < 256
      → decode_loop (suc room) dopt.plus_to_space (encode_one allowed eopt c ++ rest)
        ≡ written c (decode_loop room dopt.plus_to_space rest)
  decode_loop-encode_one c room rest h = elim (encode_one-cases c) [
    | inl (a, e) ↦ rw e (unfold decode_loop in rw (read_one-allowed c rest a, decode_loop))
    | inr (inl (p, sp, e)) ↦ rw (e, p, sp) (unfold decode_loop read_one in refl)
    | inr (inr e) ↦ rw e (
        unfold decode_loop in
        rw (read_one-escape dopt.plus_to_space _ _ rest, decode_loop, decode_hex-hex_digit c h))
  ]

  decode_loop-encode_all :
      (s : Bytes)
      → All (IsByte dopt) s
      → decode_loop (length s) dopt.plus_to_space (encode_all allowed eopt s)
        ≡ record { bytes = s; count = length s }
  decode_loop-encode_all [] h = unfold decode_loop in refl
  decode_loop-encode_all (c ∷ s) h =
      decode_loop-encode_one c (length s) (encode_all allowed eopt s) h.0.0
      ∙ ap (written c) (decode_loop-encode_all s h.1)

  bad_escape-hex_digit :
      (c : ℕ)
      → IsByte dopt c
      → bad_escape dopt.allow_null (hex_digit (c / 16)) (hex_digit (c % 16)) ≡ none
  unfolding bad_escape
  bad_escape-hex_digit c (h, n) =
      rw
        (
          hexdig_chars-hex_digit (c / 16) (omega arith),
          hexdig_chars-hex_digit (c % 16) (omega arith),
        )
        (elim (Bool-cases dopt.allow_null) [
          | inl a ↦ rw a
          | inr a ↦ rw (a, hex_digits-zero c h (n a))
        ])

  is_safe-allowed : (c : ℕ) → IsByte dopt c → allowed c ≡ true → is_safe dopt.allow_null c ≡ true
  is_safe-allowed c (h, n) a = elim (Bool-cases dopt.allow_null) [
    | inl e ↦ ground arith
    | inr e ↦ ground (arith, n e)
  ]

  -- The number of escapes that the loop counts in an encoding is what the size is reduced by.
  count_pcts-encode_all :
      (s : Bytes)
      → All (IsByte dopt) s
      → (k : ℕ) × (count_pcts dopt.allow_null (encode_all allowed eopt s) ≡ ok k)
        × (length (encode_all allowed eopt s) ≡ length s + k * 2)
  count_pcts-encode_all [] h = (0, unfold count_pcts in refl, omega arith)
  count_pcts-encode_all (c ∷ s) h =
      let (k, e, l) = count_pcts-encode_all s h.1 in
      let all = encode_all allowed eopt s in
      elim (encode_one-cases c) [
        | inl (a, one) ↦ (
          k,
          rw one (count_pcts-is_safe dopt.allow_null c all (is_safe-allowed c h.0 a) ∙ e),
          rw one (omega (arith, l)),
        )
        | inr (inl (p, sp, one)) ↦ (
          k,
          rw one (count_pcts-is_safe dopt.allow_null b'+' all (ground arith) ∙ e),
          rw one (omega (arith, l)),
        )
        | inr (inr one) ↦ (
          suc k,
          rw one (count_pcts-escape dopt.allow_null _ _ all (bad_escape-hex_digit c h.0) ∙ rw e),
          rw one (omega (arith, l)),
        )
      ]

  -- Decoding an encoded string gives the string back, for every character set without '%', when
  -- both sides agree on '+' for a space and the set has no '+' in that case; a NUL in the string
  -- needs the option `allow_null`.
  pub pct_decode-pct_encode_to_string :
      (s : Bytes)
      → All (IsByte dopt) s
      → pct_decode (length s) (pct_encode_to_string s allowed eopt) dopt
        ≡ ok (record { bytes = s; count = length s })
  unfolding pct_decode validate_pct_encoding pct_decode_unchecked
  pct_decode-pct_encode_to_string s h =
      let (k, e, l) = count_pcts-encode_all s h in
      let size : length (encode_all allowed eopt s) - k * 2 ≡ length s = omega (arith, l) in
      rw ((pct_encode_to_string-exact allowed eopt s).0, e, size, decode_loop-encode_all s h)
        (ground arith)
