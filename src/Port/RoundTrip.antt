-- ===== src/Port/RoundTrip.antt =====
-- The digits that `set_port` writes are read back by `port_rule`.
-- The first number with more than `fuel` digits.
use boost_url.Base.{
  ℕ, zero, suc, ◌+◌, ◌-◌, ◌*◌, ◌/◌, ◌%◌, ◌^◌, ◌<◌, ◌≡◌, ap, ◌∙◌, ◌≢◌, inl, inr, true, some, [], ◌∷◌,
  arith, ◌==◌, Bool-cases, ==_iff, Bytes, length, ok,
}
use boost_url.Chars.{digit_chars}
use boost_url.Port.{port_rule}
use boost_url.Port.Laws.{number_of, IsDigits, port_rule-number_of}
use boost_url.Url.Authority.{print_digits, make_printed}

abbrev limit : ℕ → ℕ
limit zero = 1
limit (suc fuel) = 10 * limit fuel

digit-add : (d : ℕ) → d < 10 → digit_chars (d + b'0') ≡ true
unfolding digit_chars
digit-add d h = ground arith

number_of-print_digits :
    (fuel n : ℕ) (rest : Bytes)
    → n < limit (suc fuel)
    → number_of 0 (print_digits (suc fuel) n rest) ≡ number_of n rest
unfolding print_digits
number_of-print_digits zero n rest h =
    let digit : 10 * 0 + (n % 10 + b'0' - b'0') ≡ n = omega arith in
    let end : (n / 10 == 0) ≡ true = ground arith in rw end (ap (λ u. number_of u rest) digit)
number_of-print_digits (suc fuel) n rest h = elim (Bool-cases (n / 10 == 0)) [
  | inl end ↦
      let digit : 10 * 0 + (n % 10 + b'0' - b'0') ≡ n = omega (arith, (==_iff (n / 10) 0).0 end) in
      rw end (ap (λ u. number_of u rest) digit)
  | inr more ↦
      let digit : 10 * (n / 10) + (n % 10 + b'0' - b'0') ≡ n = omega arith in
      rw more
        (number_of-print_digits fuel (n / 10) ((n % 10 + b'0') ∷ rest) (omega arith) ∙ rw digit)
]

print_digits-IsDigits :
    (fuel n : ℕ) (rest : Bytes) → IsDigits rest → IsDigits (print_digits fuel n rest)
unfolding print_digits
print_digits-IsDigits zero n rest h = h
print_digits-IsDigits (suc fuel) n rest h =
    let digits : IsDigits ((n % 10 + b'0') ∷ rest) = (digit-add (n % 10) (omega arith), h) in
    elim (Bool-cases (n / 10 == 0)) [
      | inl end ↦ rw end digits
      | inr more ↦ rw more (print_digits-IsDigits fuel (n / 10) ((n % 10 + b'0') ∷ rest) digits)
    ]

print_digits-nonempty : (fuel n c : ℕ) (rest : Bytes) → print_digits fuel n (c ∷ rest) ≢ []
unfolding print_digits
print_digits-nonempty zero n c rest = λ e. omega (arith, ap length e)
print_digits-nonempty (suc fuel) n c rest = elim (Bool-cases (n / 10 == 0)) [
  | inl end ↦ rw end (λ e. omega (arith, ap length e))
  | inr more ↦ rw more (print_digits-nonempty fuel (n / 10) (n % 10 + b'0') (c ∷ rest))
]

make_printed-nonempty : (n : ℕ) → make_printed n ≢ []
unfolding make_printed print_digits
make_printed-nonempty n = elim (Bool-cases (n / 10 == 0)) [
  | inl end ↦ rw end (λ e. omega (arith, ap length e))
  | inr more ↦ rw more (print_digits-nonempty 4 (n / 10) (n % 10 + b'0') [])
]

-- Every 16-bit number is printed as digits that `port_rule` takes to their end and reads as that
-- number.
pub port_rule-make_printed :
    (n : ℕ)
    → n < 2 ^ 16
    → port_rule (make_printed n) ≡ ok (record { str = make_printed n; number = some n }, [])
port_rule-make_printed n h =
    let same : number_of 0 (make_printed n) ≡ n =
      unfold make_printed in number_of-print_digits 4 n [] (omega arith) in
    let digits : IsDigits (make_printed n) =
      unfold make_printed in print_digits-IsDigits 5 n [] tt in
    rw same at (port_rule-number_of (make_printed n) (make_printed-nonempty n) digits (rw same h))
