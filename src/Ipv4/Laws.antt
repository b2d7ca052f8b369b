-- ===== src/Ipv4/Laws.antt =====
-- Printing and parsing IPv4 addresses.
use boost_url.Base.{
  ℕ, ◌+◌, ◌-◌, ◌*◌, ◌/◌, ◌%◌, ◌^◌, ◌≤◌, ◌<◌, ◌≡◌, refl, ap, ◌∙◌, ◌≢◌, ◌⊎◌, true, false, [], ◌∷◌,
  ◌++◌, append_assoc, append-nil, arith, ◌==◌, Bytes, ge→ltb, ok,
}
use boost_url.Chars.{digit_chars}
use boost_url.Grammar.{delim_rule, parse_all, octet_end, octet_third, octet_second, dec_octet_rule}
use boost_url.Ipv4.{
  from_bytes, to_bytes, write_octet, print_octets, print_impl, octets_rule, ipv4_address_rule,
  parse_ipv4_address, Octets,
}
use native.Mathlib.Decide.{dec_lt}

-- The octets that `print_impl` prints in full: those with no zero in the tens behind a hundred.
abbrev pub Prints : ℕ → Type 0
Prints v = (v < 256) × ((v < 100) ⊎ (10 ≤ v % 100))

abbrev pub PrintsAll : Octets → Type 0
PrintsAll v = Prints v.b0 × Prints v.b1 × Prints v.b2 × Prints v.b3

-- The input that may stand behind an octet.
abbrev pub NoDigit : Bytes → Type 0
NoDigit [] = Unit
NoDigit (c ∷ s) = digit_chars c ≡ false

octet_end-NoDigit : (v : ℕ) (rest : Bytes) → NoDigit rest → octet_end v rest ≡ ok (v, rest)
unfolding octet_end
octet_end-NoDigit v [] h = refl
octet_end-NoDigit v (c ∷ s) h = rw h

octet_third-NoDigit : (v : ℕ) (rest : Bytes) → NoDigit rest → octet_third v rest ≡ ok (v, rest)
unfolding octet_third
octet_third-NoDigit v [] h = refl
octet_third-NoDigit v (c ∷ s) h = rw h

octet_second-NoDigit : (v : ℕ) (rest : Bytes) → NoDigit rest → octet_second v rest ≡ ok (v, rest)
unfolding octet_second
octet_second-NoDigit v [] h = refl
octet_second-NoDigit v (c ∷ s) h = rw h

digit_chars-digit : (d : ℕ) → d < 10 → digit_chars (b'0' + d) ≡ true
unfolding digit_chars
digit_chars-digit d h = ground arith

-- The three forms of a printed octet.
write_octet_one : (v : ℕ) → v < 10 → write_octet v ≡ (b'0' + v) ∷ []
unfolding write_octet
write_octet_one v h = ground arith

write_octet_two :
    (v : ℕ) → 10 ≤ v → v < 100 → write_octet v ≡ (b'0' + v / 10) ∷ (b'0' + v % 10) ∷ []
unfolding write_octet
write_octet_two v h k = ground arith

write_octet_three :
    (v : ℕ)
    → 100 ≤ v
    → 10 ≤ v % 100
    → write_octet v ≡ (b'0' + v / 100) ∷ (b'0' + v % 100 / 10) ∷ (b'0' + v % 100 % 10) ∷ []
unfolding write_octet
write_octet_three v h k = ground arith

-- The steps of the rule at a digit.
dec_octet_rule-digit :
    (d : ℕ) (s : Bytes) → d < 10 → dec_octet_rule ((b'0' + d) ∷ s) ≡ octet_second d s
unfolding dec_octet_rule
dec_octet_rule-digit d s h =
    let same : b'0' + d - b'0' ≡ d = omega arith in rw (digit_chars-digit d h, same)

octet_second-digit :
    (v d : ℕ) (s : Bytes)
    → d < 10
    → 0 < v
    → octet_second v ((b'0' + d) ∷ s) ≡ octet_third (10 * v + d) s
unfolding octet_second
octet_second-digit v d s h k =
    let same : 10 * v + (b'0' + d) - b'0' ≡ 10 * v + d = omega arith in
    let pos : (v == 0) ≡ false = ground arith in rw (digit_chars-digit d h, pos, same)

octet_third-digit :
    (v d : ℕ) (s : Bytes)
    → d < 10
    → 10 * v + d < 256
    → octet_third v ((b'0' + d) ∷ s) ≡ octet_end (10 * v + d) s
unfolding octet_third
octet_third-digit v d s h k =
    let same : 10 * v + (b'0' + d) - b'0' ≡ 10 * v + d = omega arith in
    rw (
      digit_chars-digit d h,
      ge→ltb {a = 25} {b = v} (omega arith),
      same,
      ge→ltb {a = 255} {b = 10 * v + d} (omega arith),
    )

dec_octet_rule-write_octet :
    (v : ℕ) (rest : Bytes)
    → Prints v
    → NoDigit rest
    → dec_octet_rule (write_octet v ++ rest) ≡ ok (v, rest)
dec_octet_rule-write_octet v rest (small, form) h = elim (dec_lt v 10) [
  | yes one ↦
      rw (write_octet_one v one) (dec_octet_rule-digit v rest one ∙ octet_second-NoDigit v rest h)
  | no more ↦ elim (dec_lt v 100) [
    | yes two ↦
        let whole : 10 * (v / 10) + v % 10 ≡ v = omega arith in
        rw (write_octet_two v (omega arith) two) (
          dec_octet_rule-digit (v / 10) _ (omega arith)
          ∙ octet_second-digit (v / 10) (v % 10) rest (omega arith) (omega arith)
          ∙ rw whole (octet_third-NoDigit v rest h))
    | no three ↦
        let tens : 10 ≤ v % 100 = omega arith in
        let high : 10 * (v / 100) + v % 100 / 10 ≡ v / 10 = omega arith in
        let whole : 10 * (v / 10) + v % 100 % 10 ≡ v = omega arith in
        rw (write_octet_three v (omega arith) tens) (
          dec_octet_rule-digit (v / 100) _ (omega arith)
          ∙ octet_second-digit (v / 100) (v % 100 / 10) _ (omega arith) (omega arith)
          ∙ rw high (
              octet_third-digit (v / 10) (v % 100 % 10) rest (omega arith) (omega arith)
              ∙ rw whole (octet_end-NoDigit v rest h)))
  ]
]

delim_rule-dot : (s : Bytes) → delim_rule b'.' (b'.' ∷ s) ≡ ok (tt, s)
unfolding delim_rule
delim_rule-dot s = refl

octet_dot :
    (v : ℕ) (s : Bytes) → Prints v → dec_octet_rule (write_octet v ++ b'.' ∷ s) ≡ ok (v, b'.' ∷ s)
octet_dot v s p = dec_octet_rule-write_octet v (b'.' ∷ s) p (unfold digit_chars in refl)

octet_last : (v : ℕ) → Prints v → dec_octet_rule (write_octet v) ≡ ok (v, [])
octet_last v p = rw append-nil at (dec_octet_rule-write_octet v [] p tt)

octets_rule-print_octets : (v : Octets) → PrintsAll v → octets_rule (print_octets v) ≡ ok (v, [])
unfolding octets_rule print_octets
octets_rule-print_octets v (p0, p1, p2, p3) = rw (
  octet_dot v.b0 _ p0,
  delim_rule-dot,
  octet_dot v.b1 _ p1,
  delim_rule-dot,
  octet_dot v.b2 _ p2,
  delim_rule-dot,
  octet_last v.b3 p3,
)

octets_rule-rest :
    (v : Octets) (rest : Bytes)
    → PrintsAll v
    → NoDigit rest
    → octets_rule (print_octets v ++ rest) ≡ ok (v, rest)
unfolding octets_rule print_octets
octets_rule-rest v rest (p0, p1, p2, p3) h =
    let flat : print_octets v ++ rest
        ≡ write_octet v.b0
          ++ b'.'
            ∷ (write_octet v.b1 ++ b'.' ∷ (write_octet v.b2 ++ b'.' ∷ (write_octet v.b3 ++ rest))) =
      simp append_assoc in
    ap octets_rule flat
    ∙ rw (
      octet_dot v.b0 _ p0,
      delim_rule-dot,
      octet_dot v.b1 _ p1,
      delim_rule-dot,
      octet_dot v.b2 _ p2,
      delim_rule-dot,
      dec_octet_rule-write_octet v.b3 rest p3 h,
    )

-- The 32 bits and the four octets determine each other.
pub from_bytes-to_bytes : (addr : ℕ) → addr < 2 ^ 32 → from_bytes (to_bytes addr) ≡ addr
unfolding from_bytes to_bytes
from_bytes-to_bytes addr h = omega arith

ipv4_address_rule-print_impl :
    (addr : ℕ)
    → addr < 2 ^ 32
    → PrintsAll (to_bytes addr)
    → ipv4_address_rule (print_impl addr) ≡ ok (addr, [])
unfolding ipv4_address_rule print_impl
ipv4_address_rule-print_impl addr small h =
    rw (octets_rule-print_octets (to_bytes addr) h, from_bytes-to_bytes addr small)

pub ipv4_address_rule-rest :
    (addr : ℕ) (rest : Bytes)
    → addr < 2 ^ 32
    → PrintsAll (to_bytes addr)
    → NoDigit rest
    → ipv4_address_rule (print_impl addr ++ rest) ≡ ok (addr, rest)
unfolding ipv4_address_rule print_impl
ipv4_address_rule-rest addr rest small h k =
    rw (octets_rule-rest (to_bytes addr) rest h k, from_bytes-to_bytes addr small)

-- Parsing what `print_impl` writes for an address gives the address back, provided that no octet
-- from 100 on has a remainder below 10 by 100.
pub parse_ipv4_address-print_impl :
    (addr : ℕ)
    → addr < 2 ^ 32
    → PrintsAll (to_bytes addr)
    → parse_ipv4_address (print_impl addr) ≡ ok addr
unfolding parse_ipv4_address parse_all
parse_ipv4_address-print_impl addr small h =
    rw (ipv4_address_rule-print_impl addr small h, parse_ipv4_address, parse_all)

-- `print_impl` drops the zero of an octet such as 105: for every octet from 100 on whose remainder
-- by 100 is below 10, it writes what it writes for the octet of the two other digits, which is
-- another number.
pub write_octet_ambiguous :
    (v : ℕ)
    → 100 ≤ v
    → v < 256
    → v % 100 < 10
    → (write_octet v ≡ write_octet (v / 100 * 10 + v % 10)) × (v / 100 * 10 + v % 10 ≢ v)
unfolding write_octet
write_octet_ambiguous v h k l = (ground arith, omega arith)
