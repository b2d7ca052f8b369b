-- ===== src/Url/Iter/Measured.antt =====
-- What the loops of `edit_params` and `edit_segments` measure and copy for a plain string: its encoding,
-- where the separators are kept.
use boost_url.Base.{
  ℕ, zero, suc, ◌+◌, ◌-◌, ◌≤◌, ◌<◌, ◌≡◌, refl, sym, ap, ◌∙◌, inl, inr, true, false, Option, some,
  [], ◌∷◌, ◌++◌, append_assoc, append-nil, arith, ◌==◌, if◌then◌else◌, Bool-cases, ==_iff, Bytes,
  length, length-append, ok,
}
use boost_url.Chars.{CharSet}
use boost_url.Pct.Encode.{pct_encode_bytes, encode_one}
use boost_url.Pct.Exact.{encode_all, length-encode_all, pct_encode-eq-encode_all}
use boost_url.Url.Fragment.{encode_opts}
use boost_url.Url.Iter.{to_sep, increment, plain_iter, measure_loop, copy_loop, AnyIter}
use mathlib.Core.Path.{ap₂}

abbrev pub encoded : CharSet → Bytes → Bytes
encoded allowed s = encode_all allowed encode_opts s

encoded-append : (w : CharSet) (s t : Bytes) → encoded w (s ++ t) ≡ encoded w s ++ encoded w t
encoded-append w [] t = refl
encoded-append w (c ∷ s) t =
    ap (◌++◌ (encode_one w encode_opts c)) (encoded-append w s t)
    ∙ sym (append_assoc (encode_one w encode_opts c) (encoded w s) (encoded w t))

-- The number of separators.
unfoldable pub seps : ℕ → Bytes → ℕ
seps sep [] = 0
seps sep (c ∷ s) = if c == sep then 1 + seps sep s else seps sep s

-- What is left behind an element: nothing, or a separator and more.
abbrev IsRest : ℕ → Bytes → Type 0
IsRest sep [] = Unit
IsRest sep (c ∷ s) = (c == sep) ≡ true

module _ (sep : ℕ) where
  pub to_sep-IsRest : (s : Bytes) → IsRest sep (to_sep sep s).1
  unfolding to_sep
  to_sep-IsRest [] = tt
  to_sep-IsRest (c ∷ s) = elim (Bool-cases (c == sep)) [
    | inl here ↦ rw here here
    | inr other ↦ rw other (to_sep-IsRest s)
  ]

  to_sep-append : (s : Bytes) → (to_sep sep s).0 ++ (to_sep sep s).1 ≡ s
  unfolding to_sep
  to_sep-append [] = refl
  to_sep-append (c ∷ s) = elim (Bool-cases (c == sep)) [
    | inl here ↦ rw here refl
    | inr other ↦ rw other (ap (◌∷◌ c) (to_sep-append s))
  ]

  pub to_sep-seps : (s : Bytes) → seps sep (to_sep sep s).1 ≡ seps sep s
  unfolding to_sep seps
  to_sep-seps [] = refl
  to_sep-seps (c ∷ s) = elim (Bool-cases (c == sep)) [
    | inl here ↦ rw (here, seps) (ap (λ b. if b then 1 + seps sep s else seps sep s) here)
    | inr other ↦ rw (seps, other) (to_sep-seps s)
  ]

  pub length-to_sep : (s : Bytes) → length (to_sep sep s).1 ≤ length s
  length-to_sep s =
      omega (arith, ap length (to_sep-append s), length-append (to_sep sep s).0 (to_sep sep s).1)

  pub encoded-to_sep :
      (w : CharSet) (s : Bytes)
      → encoded w s ≡ encoded w (to_sep sep s).0 ++ encoded w (to_sep sep s).1
  encoded-to_sep w s =
      ap (encoded w) (sym (to_sep-append s)) ∙ encoded-append w (to_sep sep s).0 (to_sep sep s).1

seps_rest : (sep c : ℕ) (s : Bytes) → (c == sep) ≡ true → seps sep (c ∷ s) ≡ 1 + seps sep s
unfolding seps
seps_rest sep c s h = rw h refl

-- The set of the elements agrees with the set `whole`, which keeps the separator, on all other bytes.
module _ (allowed whole : CharSet) (sep : ℕ) (keep : whole sep ≡ true)
    (agree : (c : ℕ) → (c == sep) ≡ false → allowed c ≡ whole c) where
  encoded-element : (s : Bytes) → encoded allowed (to_sep sep s).0 ≡ encoded whole (to_sep sep s).0
  unfolding to_sep encode_one
  encoded-element [] = refl
  encoded-element (c ∷ s) = elim (Bool-cases (c == sep)) [
    | inl here ↦ rw here refl
    | inr other ↦ rw other (ap₂ ◌++◌ (same other) (encoded-element s))
  ]
    where
      same : (c == sep) ≡ false → encode_one allowed encode_opts c ≡ encode_one whole encode_opts c
      same other = rw (agree c other) refl

  encoded-rest :
      (c : ℕ) (s : Bytes) → (c == sep) ≡ true → encoded whole (c ∷ s) ≡ c ∷ encoded whole s
  unfolding encode_one
  encoded-rest c s h =
      let kept : whole c ≡ true = ap whole ((==_iff c sep).0 h) ∙ keep in rw kept refl

  text-plain :
      (a : Bytes) (place : Option (Bytes × Bytes)) (room : ℕ)
      → encoded allowed a ≡ encoded whole a
      → length (encoded whole a) ≤ room
      → (plain_iter allowed sep place).text_of room a ≡ encoded whole a
  unfolding plain_iter
  text-plain a place room e h =
      pct_encode-eq-encode_all allowed encode_opts room a (omega (arith, h, ap length e)) ∙ e

  pub size-plain :
      (s : Bytes)
      → pct_encode_bytes allowed encode_opts (to_sep sep s).0
        ≡ length (encoded whole (to_sep sep s).0)
  size-plain s =
      sym (length-encode_all allowed encode_opts (to_sep sep s).0) ∙ ap length (encoded-element s)

  module _ (place : Option (Bytes × Bytes)) where
    abbrev it : AnyIter
    it = plain_iter allowed sep place

    -- Behind an element with `rest` left.
    pub measure_loop-plain :
        (fuel n k : ℕ) (rest : Bytes)
        → IsRest sep rest
        → length rest < fuel
        → measure_loop fuel it (increment sep rest) n k
          ≡ ok (n + length (encoded whole rest), k + 1 + seps sep rest)
    unfolding measure_loop increment plain_iter seps
    measure_loop-plain zero n k rest h le = absurd (omega (arith, le))
    measure_loop-plain (suc fuel) n k [] h le = ap₂ (λ a b. ok (a, b)) (omega arith) (omega arith)
    measure_loop-plain (suc fuel) n k (c ∷ s) h le =
        let front = (to_sep sep s).0 in
        measure_loop-plain fuel (n + pct_encode_bytes allowed encode_opts front + 1) (k + 1)
          (to_sep sep s).1 (to_sep-IsRest sep s) (omega (arith, le, length-to_sep sep s))
        ∙ ap₂ (λ a b. ok (a, b))
            (omega (
              arith,
              size-plain s,
              ap length (encoded-to_sep sep whole s),
              length-append (encoded whole front) (encoded whole (to_sep sep s).1),
              ap length (encoded-rest c s h),
            ))
            (omega (arith, to_sep-seps sep s, seps_rest sep c s h))

    copied_from :
        (k room : ℕ) (a rest : Bytes)
        → encoded allowed a ≡ encoded whole a
        → IsRest sep rest
        → seps sep rest ≡ k
        → length (encoded whole a) + length (encoded whole rest) ≤ room
        → copy_loop sep (suc k) it (some (a, rest)) room ≡ encoded whole a ++ encoded whole rest
    unfolding copy_loop increment plain_iter seps
    copied_from zero room a [] ea h e le =
        text-plain a place room ea (omega (arith, le)) ∙ sym (append-nil (encoded whole a))
    copied_from zero room a (c ∷ s) ea h e le = absurd (omega (arith, e, seps_rest sep c s h))
    copied_from (suc k) room a [] ea h e le = absurd (omega (arith, e))
    copied_from (suc k) room a (c ∷ s) ea h e le =
        let here = encoded-rest c s h in
        let next =
          copied_from k (room - length (encoded whole a) - 1) (to_sep sep s).0 (to_sep sep s).1
            (encoded-element s) (to_sep-IsRest sep s)
            (omega (arith, to_sep-seps sep s, seps_rest sep c s h, e))
            (omega (
              arith,
              le,
              ap length here,
              ap length (encoded-to_sep sep whole s),
              length-append (encoded whole (to_sep sep s).0) (encoded whole (to_sep sep s).1),
            )) in
        let several : (suc k == 0) ≡ false = ground arith in
        let is_sep = (==_iff c sep).0 h in
        rw (text-plain a place room ea (omega (arith, le)), several)
          (ap (λ r. encoded whole a ++ sep ∷ r) (next ∙ sym (encoded-to_sep sep whole s))
            ∙ ap (λ d. encoded whole a ++ d ∷ encoded whole s) (sym is_sep)
            ∙ ap (◌++◌ (encoded whole a)) (sym here))

    pub copy_loop-plain :
        (room : ℕ) (t : Bytes)
        → length (encoded whole t) ≤ room
        → copy_loop sep (suc (seps sep t)) it (some (to_sep sep t)) room ≡ encoded whole t
    copy_loop-plain room t le =
        copied_from (seps sep t) room (to_sep sep t).0 (to_sep sep t).1 (encoded-element t)
          (to_sep-IsRest sep t) (to_sep-seps sep t)
          (omega (
            arith,
            le,
            ap length (encoded-to_sep sep whole t),
            length-append (encoded whole (to_sep sep t).0) (encoded whole (to_sep sep t).1),
          ))
        ∙ sym (encoded-to_sep sep whole t)
