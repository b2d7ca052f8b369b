-- ===== src/Pct/Total.antt =====
-- `pct_decode` on a valid input: the size that validation returns is the size of the decoding.
use boost_url.Base.{
  ℕ, zero, suc, ◌≤◌, ◌<◌, ◌≡◌, refl, ap, ◌∙◌, inl, inr, Bool, true, false, ◌&&◌, some, [], ◌∷◌,
  arith, ltb, ◌==◌, if◌then◌else◌, Bool-cases, ltb→lt, Bytes, ltb→ge, lt→ltb, ge→ltb, Result,
  no_space, ok, err,
}
use boost_url.Chars.{CharSet}
use boost_url.Pct.Bounds.{pct_decode_unchecked_bounds}
use boost_url.Pct.Decode.{
  pct_decode_bytes_unchecked, read_one, decode_loop, pct_decode_unchecked, PctDecodeOpts, Decoded,
}
use boost_url.Pct.Grammar.{validate_in_set_iff, plain_in_set-pct, Encoded, done, byte, triple}
use boost_url.Pct.RoundTrip.{read_one-escape}
use boost_url.Pct.Validate.{validate_in_set, checked, pct_decode_in_set}
use native.Mathlib.Nat.{le_refl}

-- A valid string counts as its size in `pct_decode_bytes_unchecked`, and decodes to that many
-- bytes wherever there is room.
module _ (p : CharSet) (q : ℕ → ℕ → Bool) (no_pct : p b'%' ≡ false) where
  ne_pct : (c : ℕ) → p c ≡ true → (c == b'%') ≡ false
  ne_pct c h = ground arith

  bytes_unchecked-byte :
      (c : ℕ) (s : Bytes)
      → p c ≡ true
      → pct_decode_bytes_unchecked (c ∷ s) ≡ suc (pct_decode_bytes_unchecked s)
  unfolding pct_decode_bytes_unchecked
  bytes_unchecked-byte c [] h = rw (ne_pct c h)
  bytes_unchecked-byte c (d ∷ []) h = rw (ne_pct c h, pct_decode_bytes_unchecked)
  bytes_unchecked-byte c (d ∷ e ∷ s) h = rw (ne_pct c h, pct_decode_bytes_unchecked)

  bytes_unchecked-Encoded : {s : Bytes} {n : ℕ} → Encoded p q s n → pct_decode_bytes_unchecked s ≡ n
  bytes_unchecked-Encoded done = unfold pct_decode_bytes_unchecked in refl
  bytes_unchecked-Encoded (byte {c} {s = s} h r) =
      bytes_unchecked-byte c s h ∙ ap suc (bytes_unchecked-Encoded r)
  bytes_unchecked-Encoded (triple {h = d} {l = e} {s = s} h k r) =
      rw h (escaped d e s ∙ ap suc (bytes_unchecked-Encoded r))
    where
      escaped :
          (d e : ℕ) (s : Bytes)
          → pct_decode_bytes_unchecked (b'%' ∷ d ∷ e ∷ s) ≡ suc (pct_decode_bytes_unchecked s)
      escaped d e s = unfold pct_decode_bytes_unchecked in refl

  read_one-byte :
      (plus : Bool) (c : ℕ) (s : Bytes) → p c ≡ true → (b : ℕ) × (read_one plus c s ≡ some (b, s))
  unfolding read_one
  read_one-byte plus c s h = elim (Bool-cases (plus && c == b'+')) [
    | inl space ↦ (b' ', rw space)
    | inr other ↦ (c, rw other (ground arith))
  ]

  decode_loop-Encoded :
      {s : Bytes} {n : ℕ} (room : ℕ) (plus : Bool)
      → Encoded p q s n
      → n ≤ room
      → (decode_loop room plus s).count ≡ n
  unfolding decode_loop
  decode_loop-Encoded room plus done le = ground arith
  decode_loop-Encoded zero plus (byte h r) le = absurd (omega arith)
  decode_loop-Encoded zero plus (triple h k r) le = absurd (omega arith)
  decode_loop-Encoded (suc room) plus (byte {c} {s = s} h r) le =
      let (b, e) = read_one-byte plus c s h in
      rw (e, decode_loop) (ap suc (decode_loop-Encoded room plus r (omega arith)))
  decode_loop-Encoded (suc room) plus (triple {h = d} {l = e} {s = s} h k r) le =
      rw (h, read_one-escape plus d e s, decode_loop)
        (ap suc (decode_loop-Encoded room plus r (omega arith)))

-- A decoder that validates with result `n` first: too little room is reported, and otherwise it
-- returns `n`, which is also what `pct_decode_bytes_unchecked` computes.
abbrev pub DecodesTo : ℕ → ℕ → Bytes → PctDecodeOpts → Result Decoded → Type 0
DecodesTo n room s opt r =
    (r ≡ (if ltb room n then err no_space else ok (pct_decode_unchecked room s opt)))
    × (n ≤ room → (pct_decode_unchecked room s opt).count ≡ n)
    × (pct_decode_bytes_unchecked s ≡ n)

module _ (p : CharSet) (q : ℕ → ℕ → Bool) (no_pct : p b'%' ≡ false) where
  checked-Encoded :
      (n room : ℕ) (s : Bytes) (opt : PctDecodeOpts)
      → Encoded p q s n
      → DecodesTo n room s opt (checked n (pct_decode_unchecked room s opt))
  unfolding pct_decode_unchecked
  checked-Encoded n room s opt r =
      let bounds = pct_decode_unchecked_bounds room s opt in
      let full = λ (h : n ≤ room). decode_loop-Encoded p q no_pct room opt.plus_to_space r h in
      elim (Bool-cases (ltb room n)) [
        | inl small ↦
            let short : (pct_decode_unchecked room s opt).count < n =
              omega (arith, bounds, ltb→lt room n small) in
            (rw (small, lt→ltb short), full, bytes_unchecked-Encoded p q no_pct r)
        | inr fits ↦ (
          rw (fits, full (ltb→ge fits), ge→ltb (le_refl n)),
          full,
          bytes_unchecked-Encoded p q no_pct r,
        )
      ]

-- With a character set without '%' and a valid input of decoded size `n`: `pct_decode` reports
-- `no_space` exactly when the room is below `n`; otherwise it returns `n` and what
-- `pct_decode_unchecked` wrote; and `n` is what `pct_decode_bytes_unchecked` computes.
pub pct_decode_in_set_lem :
    (allowed : CharSet) (room n : ℕ) (s : Bytes) (opt : PctDecodeOpts)
    → allowed b'%' ≡ false
    → validate_in_set allowed opt s ≡ ok n
    → DecodesTo n room s opt (pct_decode_in_set allowed room s opt)
unfolding pct_decode_in_set
pct_decode_in_set_lem allowed room n s opt no_pct e = rw e (
    checked-Encoded _ _ (plain_in_set-pct allowed opt no_pct) n room s opt
      ((validate_in_set_iff allowed opt no_pct s n).0 e))
