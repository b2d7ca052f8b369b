-- ===== src/Port/Laws.antt =====
-- Which numbers `port_rule` reads.
use boost_url.Base.{
  ℕ, ◌+◌, ◌-◌, ◌*◌, ◌%◌, ◌^◌, ◌≤◌, ◌<◌, ◌≡◌, refl, ap, ◌≢◌, ◌⊎◌, inl, inr, true, Option, none, some,
  [], ◌∷◌, ◌++◌, append_assoc, append-nil, arith, ltb, Bool-cases, Bytes, ge→ltb, All, ok,
}
use boost_url.Chars.{digit_chars}
use boost_url.Port.{port_end, port_overflow, port_loop, port_rule}
use mathlib.Core.Path.{subst}

-- The number of a string of digits, after the number `u`.
abbrev pub number_of : ℕ → Bytes → ℕ
number_of u [] = u
number_of u (c ∷ s) = number_of (10 * u + (c - b'0')) s

abbrev pub IsDigits : Bytes → Type 0
IsDigits s = All (λ c. digit_chars c ≡ true) s

number_of-ge : (u : ℕ) (s : Bytes) → u ≤ number_of u s
number_of-ge u [] = omega arith
number_of-ge u (c ∷ s) = omega (arith, number_of-ge (10 * u + (c - b'0')) s)

pub digit-ge : (c : ℕ) → digit_chars c ≡ true → 48 ≤ c
unfolding digit_chars
digit-ge c h = ground arith

-- One digit of a number that stays below 2 ^ 16 neither wraps around nor looks like an overflow.
step-number_of :
    (u c : ℕ) (s : Bytes)
    → digit_chars c ≡ true
    → number_of u (c ∷ s) < 2 ^ 16
    → (10 * u + c - b'0') % 2 ^ 16 ≡ 10 * u + (c - b'0')
step-number_of u c s h small = omega (arith, number_of-ge (10 * u + (c - b'0')) s, digit-ge c h)

port_loop-number_of :
    (d : ℕ) (ds : Bytes) (u : ℕ) (s : Bytes)
    → IsDigits s
    → number_of u s < 2 ^ 16
    → port_loop (d ∷ ds) u s ≡ (record { str = d ∷ ds ++ s; number = some (number_of u s) }, [])
unfolding port_loop port_end
port_loop-number_of d ds u [] h small = rw append-nil
port_loop-number_of d ds u (c ∷ s) (h, hs) small = rw (
  h,
  step-number_of u c s h small,
  ge→ltb {a = 10 * u + (c - b'0')} {b = u} (omega arith),
  port_loop-number_of d (ds ++ c ∷ []) (10 * u + (c - b'0')) s hs small,
  append_assoc,
)

-- Where the decimal number is below 2 ^ 16, it is the number that `port_rule` returns.
pub port_rule-number_of :
    (s : Bytes)
    → s ≢ []
    → IsDigits s
    → number_of 0 s < 2 ^ 16
    → port_rule s ≡ ok (record { str = s; number = some (number_of 0 s) }, [])
unfolding port_rule port_loop
port_rule-number_of [] ne h small = absurd (ne refl)
port_rule-number_of (c ∷ s) ne (h, hs) small = rw (
  h,
  step-number_of 0 c s h small,
  ge→ltb {a = 10 * 0 + (c - b'0')} {b = 0} (omega arith),
  port_loop-number_of c [] (10 * 0 + (c - b'0')) s hs small,
)

number_of-mod :
    (a b : ℕ) (s : Bytes)
    → a % 2 ^ 16 ≡ b % 2 ^ 16
    → number_of a s % 2 ^ 16 ≡ number_of b s % 2 ^ 16
number_of-mod a b [] e = e
number_of-mod a b (c ∷ s) e =
    number_of-mod (10 * a + (c - b'0')) (10 * b + (c - b'0')) s (omega (arith, e))

port_overflow-digits :
    (ds s : Bytes) → IsDigits s → port_overflow ds s ≡ (record { str = ds ++ s; number = none }, [])
unfolding port_overflow
port_overflow-digits ds [] h = rw append-nil
port_overflow-digits ds (c ∷ s) (h, hs) =
    rw (h, port_overflow-digits (ds ++ c ∷ []) s hs, append_assoc)

-- No number, or the decimal one without the bits above the 16.
abbrev pub IsWrapped : ℕ → Option ℕ → Type 0
IsWrapped n found = (found ≡ none) ⊎ (found ≡ some (n % 2 ^ 16))

-- The loop behind a digit takes all the digits, whether it meets an overflow or not.
port_loop-digits :
    (d : ℕ) (ds : Bytes) (u : ℕ) (s : Bytes)
    → IsDigits s
    → u < 2 ^ 16
    → (found : Option ℕ) × (port_loop (d ∷ ds) u s
        ≡ (record { str = d ∷ ds ++ s; number = found }, []))
      × IsWrapped (number_of u s) found
unfolding port_loop port_end
port_loop-digits d ds u [] h small = (some u, rw append-nil, inr (ap some (omega (arith, small))))
port_loop-digits d ds u (c ∷ s) (h, hs) small =
    let u1 = (10 * u + c - b'0') % 2 ^ 16 in
    let (found, e, k) = port_loop-digits d (ds ++ c ∷ []) u1 s hs (omega arith) in
    elim (Bool-cases (ltb u1 u)) [
      | inl over ↦ (
        none,
        rw (h, over, port_overflow-digits (d ∷ (ds ++ c ∷ [])) s hs, append_assoc),
        inl refl,
      )
      | inr fits ↦ (
        found,
        rw (h, fits) (rw (append_assoc ds (c ∷ []) s) at e),
        subst (λ n. (found ≡ none) ⊎ (found ≡ some n))
            (number_of-mod u1 (10 * u + (c - b'0')) s (omega (arith, digit-ge c h))) k,
      )
    ]

port_rule-digits :
    (s : Bytes)
    → s ≢ []
    → IsDigits s
    → (found : Option ℕ) × (port_rule s ≡ ok (record { str = s; number = found }, []))
      × IsWrapped (number_of 0 s) found
unfolding port_rule port_loop
port_rule-digits [] ne h = absurd (ne refl)
port_rule-digits (c ∷ s) ne (h, hs) =
    let u1 = (10 * 0 + c - b'0') % 2 ^ 16 in
    let (found, e, k) = port_loop-digits c [] u1 s hs (omega arith) in
    (
      found,
      rw (h, ge→ltb {a = u1} {b = 0} (omega arith)) (ap ok e),
      subst (λ n. (found ≡ none) ⊎ (found ≡ some n))
          (number_of-mod u1 (10 * 0 + (c - b'0')) s (omega (arith, digit-ge c h))) k,
    )

-- `port_rule` takes any string of digits but the empty one to its end, overflow or not. When the decimal
-- number of it is below 2 ^ 16, that is the number it returns; when it is not, there is no number, or
-- the decimal number modulo 2 ^ 16, an overflow that was not seen.
pub port_rule-IsDigits :
    (s : Bytes)
    → s ≢ []
    → IsDigits s
    → (found : Option ℕ) × (port_rule s ≡ ok (record { str = s; number = found }, []))
      × (((number_of 0 s < 2 ^ 16) × (found ≡ some (number_of 0 s)))
          ⊎ ((2 ^ 16 ≤ number_of 0 s) × IsWrapped (number_of 0 s) found))
port_rule-IsDigits s ne h = elim (Bool-cases (ltb (number_of 0 s) (2 ^ 16))) [
  | inl small ↦
      let less : number_of 0 s < 2 ^ 16 = ground (arith, small) in
      (some (number_of 0 s), port_rule-number_of s ne h less, inl (less, refl))
  | inr large ↦
      let (found, e, k) = port_rule-digits s ne h in (found, e, inr (ground (arith, large), k))
]
