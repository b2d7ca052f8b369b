-- ===== src/Ipv6/Words.antt =====
-- The words of a printed IPv6 address are read back by `h16_rule`.
-- No digit is in front.
use boost_url.Base.{
  ℕ, zero, suc, ◌+◌, ◌*◌, ◌/◌, ◌%◌, ◌^◌, ◌<◌, ◌≡◌, refl, ap, ◌∙◌, inl, inr, none, some, [], ◌∷◌,
  ◌++◌, arith, leb, Bool-cases, Bytes, ok,
}
use boost_url.Chars.{hexdig_value}
use boost_url.Ipv6.{dig, print_hex}
use boost_url.Rfc.Ipv6.{h16_digits, h16_rule, four}

abbrev pub NoDigit : Bytes → Type 0
NoDigit [] = Unit
NoDigit (c ∷ _) = hexdig_value c ≡ none

hexdig_value-dig : (d : ℕ) → d < 16 → hexdig_value (dig d) ≡ some d
unfolding hexdig_value dig
hexdig_value-dig d h = ground arith

h16_digits-end : (n v : ℕ) (s : Bytes) → NoDigit s → h16_digits n v s ≡ (v, s)
unfolding h16_digits
h16_digits-end zero v s h = refl
h16_digits-end (suc n) v [] h = refl
h16_digits-end (suc n) v (c ∷ s) h = rw (h16_digits, h) refl

h16_digits-dig :
    (n v d : ℕ) (s : Bytes)
    → d < 16
    → h16_digits (suc n) v (dig d ∷ s) ≡ h16_digits n ((16 * v + d) % 2 ^ 16) s
unfolding h16_digits
h16_digits-dig n v d s h = rw (h16_digits, hexdig_value-dig d h) refl

h16_rule-dig :
    (d v : ℕ) (s rest : Bytes)
    → d < 16
    → h16_digits 3 d s ≡ (v, rest)
    → h16_rule (dig d ∷ s) ≡ ok ((v / 256, v % 256), rest)
unfolding h16_rule
h16_rule-dig d v s rest h e = rw (h16_rule, hexdig_value-dig d h, e) refl

one :
    (v w d1 n : ℕ) (s : Bytes)
    → d1 < 16
    → v < 4096
    → NoDigit s
    → 16 * v + d1 ≡ w
    → h16_digits (suc n) v (dig d1 ∷ s) ≡ (w, s)
one v w d1 n s h k stop e =
    h16_digits-dig n v d1 s h
    ∙ h16_digits-end n ((16 * v + d1) % 2 ^ 16) s stop
    ∙ ap (λ x. (x, s)) (omega (arith, h, k, e))

two :
    (v w d1 d2 n : ℕ) (s : Bytes)
    → d1 < 16
    → d2 < 16
    → v < 256
    → NoDigit s
    → 16 * (16 * v + d1) + d2 ≡ w
    → h16_digits (suc (suc n)) v (dig d1 ∷ dig d2 ∷ s) ≡ (w, s)
two v w d1 d2 n s h1 h2 k stop e =
    let small : (16 * v + d1) % 2 ^ 16 ≡ 16 * v + d1 = omega (arith, h1, k) in
    h16_digits-dig (suc n) v d1 (dig d2 ∷ s) h1
    ∙ ap (λ x. h16_digits (suc n) x (dig d2 ∷ s)) small
    ∙ one (16 * v + d1) w d2 n s h2 (omega (arith, h1, k)) stop e

three :
    (v w d1 d2 d3 : ℕ) (s : Bytes)
    → d1 < 16
    → d2 < 16
    → d3 < 16
    → v < 16
    → NoDigit s
    → 16 * (16 * (16 * v + d1) + d2) + d3 ≡ w
    → h16_digits 3 v (dig d1 ∷ dig d2 ∷ dig d3 ∷ s) ≡ (w, s)
three v w d1 d2 d3 s h1 h2 h3 k stop e =
    let small : (16 * v + d1) % 2 ^ 16 ≡ 16 * v + d1 = omega (arith, h1, k) in
    h16_digits-dig 2 v d1 (dig d2 ∷ dig d3 ∷ s) h1
    ∙ ap (λ x. h16_digits 2 x (dig d2 ∷ dig d3 ∷ s)) small
    ∙ two (16 * v + d1) w d2 d3 0 s h2 h3 (omega (arith, h1, k)) stop e

-- `h16_rule` reads what `print_hex` writes for a 16-bit word as the two bytes of that word, and leaves
-- what follows, unless that starts with a digit.
pub h16_rule-print_hex :
    (v : ℕ) (s : Bytes)
    → v < 2 ^ 16
    → NoDigit s
    → h16_rule (print_hex v ++ s) ≡ ok ((v / 256, v % 256), s)
unfolding print_hex
h16_rule-print_hex v s h stop = elim (Bool-cases (leb 0x1000 v)) [
  | inl four ↦ rw four (
      h16_rule-dig (v / 2 ^ 12) v _ s (omega (arith, h)) (
        three (v / 2 ^ 12) v _ _ _ s (omega arith) (omega arith) (omega arith) (omega (arith, h))
          stop (omega arith)))
  | inr l4 ↦ elim (Bool-cases (leb 0x100 v)) [
    | inl three_digits ↦
        rw (l4, three_digits)
          (h16_rule-dig (v / 2 ^ 8) v _ s (ground (arith, l4)) (
            two (v / 2 ^ 8) v _ _ 1 s (omega arith) (omega arith) (ground (arith, l4)) stop
              (omega arith)))
    | inr l3 ↦ elim (Bool-cases (leb 0x10 v)) [
      | inl two_digits ↦
          rw (l4, l3, two_digits)
            (h16_rule-dig (v / 2 ^ 4) v _ s (ground (arith, l3))
              (one (v / 2 ^ 4) v _ 2 s (omega arith) (ground (arith, l3)) stop (omega arith)))
      | inr l2 ↦
          rw (l4, l3, l2) (h16_rule-dig v v s s (ground (arith, l2)) (h16_digits-end 3 v s stop))
    ]
  ]
]
