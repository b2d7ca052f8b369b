-- ===== src/Unsigned/Laws.antt =====
-- The numbers that `unsigned_rule` returns.
use boost_url.Base.{
  ℕ, zero, suc, ◌+◌, ◌-◌, ◌*◌, ◌/◌, ◌%◌, ◌≤◌, ◌≡◌, refl, sym, ap, ◌∙◌, inl, inr, true, false, ◌&&◌,
  ◌||◌, [], ◌∷◌, ◌++◌, append_assoc, arith, ltb, ◌==◌, Bool-cases, Bytes, All, Holds, Holds-map,
}
use boost_url.Chars.{digit_chars}
use boost_url.Unsigned.{starts_digit, safe_digits, last_digit, unsigned_rule}
use native.Mathlib.Nat.{mod-eq_of_lt}

-- The largest number with `n` digits more than `u`.
abbrev nines : ℕ → ℕ → ℕ
nines zero u = u
nines (suc n) u = nines n (u * 10 + 9)

nines_mono : (n u v : ℕ) → u ≤ v → nines n u ≤ nines n v
nines_mono zero u v h = h
nines_mono (suc n) u v h = nines_mono n (u * 10 + 9) (v * 10 + 9) (omega (arith, h))

nines_above : (n u : ℕ) → u ≤ nines n u
nines_above zero u = omega arith
nines_above (suc n) u = omega (arith, nines_above n (u * 10 + 9))

-- The number that the digits `t` behind the number `u` make.
abbrev number : ℕ → Bytes → ℕ
number u [] = u
number u (c ∷ t) = number (u * 10 + (c - b'0')) t

-- A number that was read: its digits, what is left, and its bound.
abbrev pub IsNumber : ℕ → ℕ → Bytes → ℕ × Bytes → Type 0
IsNumber max u s (v, rest) =
    (t : Bytes) × (s ≡ t ++ rest) × All (λ c. digit_chars c ≡ true) t × (v ≡ number u t) × (v ≤ max)

digit_small : (c : ℕ) → digit_chars c ≡ true → c - b'0' ≤ 9
unfolding digit_chars
digit_small c e = ground arith

safe_digits-IsNumber :
    (n max u : ℕ) (s : Bytes) → nines n u ≤ max → IsNumber max u s (safe_digits n max u s)
unfolding safe_digits
safe_digits-IsNumber zero max u s h = ([], refl, tt, refl, h)
safe_digits-IsNumber (suc n) max u [] h =
    ([], refl, tt, refl, omega (arith, nines_above (suc n) u, h))
safe_digits-IsNumber (suc n) max u (c ∷ s) h = elim (Bool-cases (digit_chars c)) [
  | inr other ↦
      rw (safe_digits, other) ([], refl, tt, refl, omega (arith, nines_above (suc n) u, h))
  | inl digit ↦
      let small = digit_small c digit in
      let mono = nines_mono n (u * 10 + (c - b'0')) (u * 10 + 9) (omega (arith, small)) in
      let above = nines_above n (u * 10 + 9) in
      let same : (u * 10 + (c - b'0')) % suc max ≡ u * 10 + (c - b'0') =
        mod-eq_of_lt (omega (arith, small, mono, above, h, nines_above n (u * 10 + (c - b'0')))) in
      let (t, e, digits, value, le) =
        safe_digits-IsNumber n max (u * 10 + (c - b'0')) s (omega (arith, mono, h)) in
      rw (safe_digits, digit, same) (c ∷ t, ap (◌∷◌ c) e, (digit, digits), value, le)
]

fits :
    (max u d : ℕ)
    → d ≤ 9
    → (ltb (max / 10) u || (u == max / 10 && ltb (max % 10) d)) ≡ false
    → u * 10 + d ≤ max
fits max u d h e = elim (Bool-cases (ltb (max / 10) u)) [
  | inl above ↦ absurd (ground (arith, above, e))
  | inr below ↦ ground (arith, below, e, h)
]

last_digit-IsNumber :
    (max u : ℕ) (s : Bytes) → u ≤ max → Holds (IsNumber max u s) (last_digit max u s)
unfolding last_digit
last_digit-IsNumber max u [] h = ([], refl, tt, refl, h)
last_digit-IsNumber max u (c ∷ s) h = elim (Bool-cases (digit_chars c)) [
  | inr other ↦ rw other ([], refl, tt, refl, h)
  | inl digit ↦
      elim (Bool-cases (ltb (max / 10) u || (u == max / 10 && ltb (max % 10) (c - b'0')))) [
        | inl large ↦ rw (digit, large) tt
        | inr small ↦ elim (Bool-cases (starts_digit s)) [
          | inl more ↦ rw (digit, small, more) tt
          | inr stop ↦
              let le = fits max u (c - b'0') (digit_small c digit) small in
              let same : (u * 10 + (c - b'0')) % suc max ≡ u * 10 + (c - b'0') =
                mod-eq_of_lt (omega (arith, le)) in
              rw (digit, small, stop, same) (c ∷ [], refl, (digit, tt), refl, le)
        ]
      ]
]

All-append : (P : ℕ → Type 0) (t r : Bytes) → All P t → All P r → All P (t ++ r)
All-append P [] r h k = k
All-append P (c ∷ t) r (h, more) k = (h, All-append P t r more k)

zero_digit : (c : ℕ) → (c == b'0') ≡ true → digit_chars c ≡ true
unfolding digit_chars
zero_digit c e = ground (arith, e)

number-append : (u : ℕ) (t r : Bytes) → number u (t ++ r) ≡ number (number u t) r
number-append u [] r = refl
number-append u (c ∷ t) r = number-append (u * 10 + (c - b'0')) t r

behind :
    (max c : ℕ) (s : Bytes) (p : ℕ × Bytes)
    → digit_chars c ≡ true
    → IsNumber max (c - b'0') s p
    → Holds (IsNumber max 0 (c ∷ s)) (last_digit max p.0 p.1)
behind max c s (v, rest) digit (t, e, digits, value, le) =
    Holds-map (IsNumber max v rest) (IsNumber max 0 (c ∷ s)) (last_digit max v rest)
      (last_digit-IsNumber max v rest le) (λ p k. join p k)
  where
    join : (p : ℕ × Bytes) → IsNumber max v rest p → IsNumber max 0 (c ∷ s) p
    join (w, left) (r, f, more, same, bound) = (
      c ∷ (t ++ r),
      ap (◌∷◌ c) (e ∙ ap (◌++◌ t) f ∙ sym (append_assoc t r left)),
      (digit, All-append (λ d. digit_chars d ≡ true) t r digits more),
      same
          ∙ ap (λ x. number x r) value
          ∙ sym (number-append (c - b'0') t r)
          ∙ ap (λ u. number u (t ++ r)) (omega arith),
      bound,
    )

-- A number that `unsigned_rule` returns is the decimal number of the digits that it has taken, without a
-- wrap-around, and no larger than the largest of its type. The provision is that `digits10` nines are no
-- larger than that either.
pub unsigned_rule-IsNumber :
    (digits10 max : ℕ) (s : Bytes)
    → nines (digits10 - 1) 9 ≤ max
    → Holds (IsNumber max 0 s) (unsigned_rule digits10 max s)
unfolding unsigned_rule
unsigned_rule-IsNumber digits10 max [] h = tt
unsigned_rule-IsNumber digits10 max (c ∷ s) h = elim (Bool-cases (c == b'0')) [
  | inl none_behind ↦ elim (Bool-cases (starts_digit s)) [
    | inl more ↦ rw (none_behind, more) tt
    | inr stop ↦
        rw (none_behind, stop)
          (c ∷ [], refl, (zero_digit c none_behind, tt), ground (arith, none_behind), omega arith)
  ]
  | inr first ↦ elim (Bool-cases (digit_chars c)) [
    | inr other ↦ rw (first, other) tt
    | inl digit ↦
        let small = nines_mono (digits10 - 1) (c - b'0') 9 (digit_small c digit) in
        let taken =
          safe_digits-IsNumber (digits10 - 1) max (c - b'0') s (omega (arith, small, h)) in
        rw (first, digit) (behind max c s (safe_digits (digits10 - 1) max (c - b'0') s) digit taken)
  ]
]
