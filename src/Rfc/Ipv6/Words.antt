-- ===== src/Rfc/Ipv6/Words.antt =====
-- The words that `h16_rule` reads.
-- The limit of a number that takes `n` digits more.
use boost_url.Base.{
  ℕ, zero, suc, ◌+◌, ◌*◌, ◌%◌, ◌^◌, ◌≤◌, ◌<◌, ◌≡◌, refl, ap, inl, inr, Option, none, some, [], ◌∷◌,
  ◌++◌, arith, Bytes, length, Option-cases, Holds,
}
use boost_url.Chars.{hexdig_value}
use boost_url.Rfc.Ipv6.{h16_digits, h16_rule}
use boost_url.Rfc.Ipv6.Forms.{IsWord, Hex, no_digit, next_digit}
use boost_url.Url.{size}
use mathlib.Core.Path.{subst}

abbrev room : ℕ → ℕ
room zero = 2 ^ 16
room (suc zero) = 2 ^ 12
room (suc (suc zero)) = 2 ^ 8
room (suc (suc (suc _))) = 2 ^ 4

room-suc : (n : ℕ) → n ≤ 2 → 16 * room (suc n) ≤ room n
room-suc zero h = omega arith
room-suc (suc zero) h = omega arith
room-suc (suc (suc zero)) h = omega arith
room-suc (suc (suc (suc n))) h = absurd (omega (arith, h))

hexdig_value-less : (c d : ℕ) → hexdig_value c ≡ some d → d < 16
unfolding hexdig_value
hexdig_value-less c d e = ground (arith, e)

room-le : (n : ℕ) → room n ≤ 2 ^ 16
room-le zero = omega arith
room-le (suc zero) = omega arith
room-le (suc (suc zero)) = omega arith
room-le (suc (suc (suc n))) = omega arith

-- Digits, `n` at most, behind the number `u`.
abbrev Digits : ℕ → ℕ → Bytes → ℕ × Bytes → Type 0
Digits n u s p = (w : Bytes) × (s ≡ w ++ p.1) × Hex u w (p.0) × (length w ≤ n)

h16_digits-Hex : (n u : ℕ) (s : Bytes) → n ≤ 3 → u < room n → Digits n u s (h16_digits n u s)
unfolding h16_digits
h16_digits-Hex zero u s le small = ([], refl, no_digit, omega arith)
h16_digits-Hex (suc n) u [] le small = ([], refl, no_digit, omega arith)
h16_digits-Hex (suc n) u (c ∷ s) le small =
    digit (hexdig_value c) refl (λ w less. h16_digits-Hex n w s (omega (arith, le)) less)
  where
    digit :
        (x : Option ℕ)
        → hexdig_value c ≡ x
        → ((w : ℕ) → w < room n → Digits n w s (h16_digits n w s))
        → Digits (suc n) u (c ∷ s) (elim x as (λ _. ℕ × Bytes) [
          | none ↦ (u, c ∷ s)
          | some d ↦ h16_digits n ((16 * u + d) % 2 ^ 16) s
        ])
    digit none e more = ([], refl, no_digit, omega arith)
    digit (some d) e more =
        let less = hexdig_value-less c d e in
        let fits : 16 * u + d < room n =
          omega (arith, small, less, room-suc n (omega (arith, le))) in
        let same : (16 * u + d) % 2 ^ 16 ≡ 16 * u + d = omega (arith, fits, room-le n) in
        let (w, f, hex, size) = more (16 * u + d) fits in
        rw same (c ∷ w, ap (◌∷◌ c) f, next_digit e hex, omega (arith, size))

pub h16_rule-IsWord :
    (s : Bytes)
    → Holds
        (λ (p : (ℕ × ℕ) × Bytes). (w : Bytes) × (s ≡ w ++ p.1) × IsWord w (p.0.0 ∷ p.0.1 ∷ []))
        (h16_rule s)
unfolding h16_rule
h16_rule-IsWord [] = tt
h16_rule-IsWord (c ∷ s) = elim (Option-cases (hexdig_value c)) [
  | inl bad ↦ rw (bad, h16_rule) tt
  | inr (d, good) ↦
      let (w, e, hex, size) = h16_digits-Hex 3 d s (omega arith) (hexdig_value-less c d good) in
      rw (good, h16_rule)
        (
          c ∷ w,
          ap (◌∷◌ c) e,
          (
            _,
            next_digit good (subst (λ u. Hex u w (h16_digits 3 d s).0) (omega arith) hex),
            omega arith,
            omega (arith, size),
            refl,
          ),
        )
]
