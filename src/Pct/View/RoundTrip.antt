-- ===== src/Pct/View/RoundTrip.antt =====
-- Reading an encoded string through `pct_encoded_view`.
use boost_url.Base.{
  ℕ, zero, suc, ◌≤◌, ◌<◌, ◌≡◌, refl, ap, ◌∙◌, inl, inr, Bool, true, false, ◌&&◌, some, [], ◌∷◌,
  arith, ◌==◌, Bytes, length, length-append, All,
}
use boost_url.Chars.{CharSet}
use boost_url.Pct.Decode.{decode_hex, PctDecodeOpts}
use boost_url.Pct.Encode.{encode_one, pct_encode_to_string, PctEncodeOpts}
use boost_url.Pct.Exact.{encode_all, pct_encode_to_string-exact}
use boost_url.Pct.RoundTrip.{decode_hex-hex_digit, encode_one-cases}
use boost_url.Pct.View.{construct, digits_behind, deref, advance, read_from, contents}
use mathlib.Core.Option

deref-itself :
    (plus : Bool) (c : ℕ) (s : Bytes)
    → (c == b'%') ≡ false
    → (plus && c == b'+') ≡ false
    → deref plus c s ≡ some c
unfolding deref
deref-itself plus c s pct itself = rw (itself, pct)

advance-itself : (c : ℕ) (s : Bytes) → (c == b'%') ≡ false → advance c s ≡ some s
unfolding advance
advance-itself c s pct = rw pct

-- The iterator at a byte that stands for itself, at a '+' for a space, and at an escape.
read_from-plain :
    (fuel : ℕ) (plus : Bool) (c : ℕ) (s : Bytes)
    → (c == b'%') ≡ false
    → (plus && c == b'+') ≡ false
    → read_from (suc fuel) plus (c ∷ s) ≡ Option.map (◌∷◌ c) (read_from fuel plus s)
unfolding read_from
read_from-plain fuel plus c s pct itself =
    rw (deref-itself plus c s pct itself, read_from, advance-itself c s pct)

read_from-space :
    (fuel : ℕ) (s : Bytes)
    → read_from (suc fuel) true (b'+' ∷ s) ≡ Option.map (◌∷◌ b' ') (read_from fuel true s)
unfolding read_from deref advance
read_from-space fuel s = refl

read_from-escape :
    (fuel : ℕ) (plus : Bool) (h l : ℕ) (s : Bytes)
    → read_from (suc fuel) plus (b'%' ∷ h ∷ l ∷ s)
      ≡ Option.map (◌∷◌ (decode_hex h l)) (read_from fuel plus s)
unfolding read_from deref advance digits_behind
read_from-escape fuel true h l s = refl
read_from-escape fuel false h l s = refl

module _ (allowed : CharSet) (eopt : PctEncodeOpts) (dopt : PctDecodeOpts)
    (no_pct : allowed b'%' ≡ false) (same : dopt.plus_to_space ≡ eopt.space_to_plus)
    (no_plus : dopt.plus_to_space ≡ true → allowed b'+' ≡ false) where
  read_from-encode_all :
      (s : Bytes) (fuel : ℕ)
      → All (λ c. c < 256) s
      → length s ≤ fuel
      → read_from fuel dopt.plus_to_space (encode_all allowed eopt s) ≡ some s
  read_from-encode_all [] fuel h le = unfold read_from in refl
  read_from-encode_all (c ∷ s) zero h le = absurd (omega arith)
  read_from-encode_all (c ∷ s) (suc fuel) (h, hs) le =
      let rest = read_from-encode_all s fuel hs (omega arith) in
      elim (encode_one-cases allowed eopt dopt no_pct same no_plus c) [
        | inl (a, e) ↦
            let pct : (c == b'%') ≡ false = ground arith in
            let itself : (dopt.plus_to_space && c == b'+') ≡ false = ground arith in
            rw (e, read_from-plain fuel dopt.plus_to_space c _ pct itself, rest)
        | inr (inl (p, sp, e)) ↦
            rw (e, p)
              (read_from-space fuel (encode_all allowed eopt s)
                ∙ rw (
                  sp,
                  (let there : read_from fuel true (encode_all allowed eopt s) ≡ some s =
                        rw p at rest in
                      there),
                ))
        | inr (inr e) ↦
            rw (e, read_from-escape fuel dopt.plus_to_space, rest, decode_hex-hex_digit c h)
      ]

  encode_all-longer : (s : Bytes) → length s ≤ length (encode_all allowed eopt s)
  encode_all-longer [] = omega arith
  encode_all-longer (c ∷ s) =
      let total = length-append (encode_one allowed eopt c) (encode_all allowed eopt s) in
      let rest = encode_all-longer s in
      elim (encode_one-cases allowed eopt dopt no_pct same no_plus c) [
        | inl (a, e) ↦ omega (arith, total, rest, ap length e)
        | inr (inl (p, sp, e)) ↦ omega (arith, total, rest, ap length e)
        | inr (inr e) ↦ omega (arith, total, rest, ap length e)
      ]

  -- The bytes that are read from an encoded string are those that were encoded, for every character
  -- set without '%', when both sides agree on '+' for a space and the set has no '+' in that case.
  pub contents-pct_encode_to_string :
      (s : Bytes) (n : ℕ)
      → All (λ c. c < 256) s
      → contents (construct (pct_encode_to_string s allowed eopt) n dopt) ≡ some s
  unfolding contents construct
  contents-pct_encode_to_string s n h =
      let exact = (pct_encode_to_string-exact allowed eopt s).0 in
      rw exact (read_from-encode_all s (length (encode_all allowed eopt s)) h (encode_all-longer s))
