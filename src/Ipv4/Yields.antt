-- ===== src/Ipv4/Yields.antt =====
-- The texts that the IPv4 rule takes.
use boost_url.Base.{
  ℕ, ◌+◌, ◌-◌, ◌*◌, ◌≤◌, ◌≡◌, refl, sym, ◌⊎◌, inl, inr, true, false, [], ◌∷◌, ◌++◌, append-nil,
  arith, ltb, ◌==◌, Bool-cases, Bytes,
}
use boost_url.Chars.{digit_chars}
use boost_url.Grammar.{Rule, delim_rule, ◌>>◌, octet_end, octet_third, octet_second, dec_octet_rule}
use boost_url.Grammar.Yields.{Yields, Yields-bind, Yields-map, delim_rule-Yields, Holds-cons}
use boost_url.Ipv4.{from_bytes, octets_rule, ipv4_address_rule, Octets}
use boost_url.Port.Laws.{number_of, IsDigits, digit-ge}

-- A number of more digits than one has no '0' in front.
abbrev pub NoZero : Bytes → Type 0
NoZero [] = ⊥
NoZero (c ∷ []) = Unit
NoZero (c ∷ _ ∷ _) = (c == b'0') ≡ false

-- The decimal number of a byte: digits, with no '0' in front of others.
abbrev pub IsOctet : Bytes → ℕ → Type 0
IsOctet t v = IsDigits t × (number_of 0 t ≡ v) × (v ≤ 255) × NoZero t

-- Four of them with a '.' between them.
abbrev pub IsOctets : Bytes → Octets → Type 0
IsOctets t v =
    (d0 : Bytes) × (d1 : Bytes) × (d2 : Bytes) × (d3 : Bytes) × (t
      ≡ d0 ++ b'.' ∷ (d1 ++ b'.' ∷ (d2 ++ b'.' ∷ d3)))
    × IsOctet d0 v.b0
    × IsOctet d1 v.b1
    × IsOctet d2 v.b2
    × IsOctet d3 v.b3

-- The text of the address `address`, in dotted form.
abbrev pub IsDotted : Bytes → ℕ → Type 0
IsDotted t address = (v : Octets) × IsOctets t v × (address ≡ from_bytes v)

-- The digits behind the number `u`, that make it `v`.
abbrev More : ℕ → Bytes → ℕ → Type 0
More u t v = IsDigits t × (number_of u t ≡ v) × (v ≤ 255)

digit-le : (c : ℕ) → digit_chars c ≡ true → c ≤ 57
unfolding digit_chars
digit-le c h = ground arith

octet_end-Yields : (v : ℕ) → v ≤ 255 → Yields (More v) (octet_end v)
unfolding octet_end
octet_end-Yields v le [] = ([], refl, (tt, refl, le))
octet_end-Yields v le (d ∷ s) = elim (Bool-cases (digit_chars d)) [
  | inl digit ↦ rw digit tt
  | inr other ↦ rw other ([], refl, (tt, refl, le))
]

-- A digit in front of the others.
More-digit :
    (u w d : ℕ)
    → digit_chars d ≡ true
    → w ≡ 10 * u + d - b'0'
    → (t : Bytes) (v : ℕ) → More w t v
    → More u (d ∷ t) v
More-digit u w d digit e t v (digits, n, le) =
    let same : w ≡ 10 * u + (d - b'0') = omega (arith, e, digit-ge d digit) in
    ((digit, digits), (rw (sym same) n), le)

octet_third-Yields : (v : ℕ) → v ≤ 255 → Yields (More v) (octet_third v)
unfolding octet_third
octet_third-Yields v le [] = ([], refl, (tt, refl, le))
octet_third-Yields v le (d ∷ s) = elim (Bool-cases (digit_chars d)) [
  | inr other ↦ rw other ([], refl, (tt, refl, le))
  | inl digit ↦ elim (Bool-cases (ltb 25 v)) [
    | inl large ↦ rw (digit, large) tt
    | inr small ↦ elim (Bool-cases (ltb 255 (10 * v + d - b'0'))) [
      | inl more ↦ rw (digit, small, more) tt
      | inr fits ↦
          let w = 10 * v + d - b'0' in
          rw (digit, small, fits)
            (Holds-cons (More v) d s (octet_end w s) (
              Yields-map (More w) (λ t x. More v (d ∷ t) x) (octet_end w)
                (octet_end-Yields w (ground (arith, fits))) (More-digit v w d digit refl) s))
    ]
  ]
]

-- Behind the first digit.
abbrev Second : ℕ → Bytes → ℕ → Type 0
Second u t v = More u t v × ((t ≡ []) ⊎ ((u == 0) ≡ false))

octet_second-Yields : (v : ℕ) → v ≤ 9 → Yields (Second v) (octet_second v)
unfolding octet_second
octet_second-Yields v le [] = ([], refl, ((tt, refl, omega (arith, le)), inl refl))
octet_second-Yields v le (d ∷ s) = elim (Bool-cases (digit_chars d)) [
  | inr other ↦ rw other ([], refl, ((tt, refl, omega (arith, le)), inl refl))
  | inl digit ↦ elim (Bool-cases (v == 0)) [
    | inl zero' ↦ rw (digit, zero') tt
    | inr more ↦
        let w = 10 * v + d - b'0' in
        rw (digit, more)
          (Holds-cons (Second v) d s (octet_third w s) (
            Yields-map (More w) (λ t x. Second v (d ∷ t) x) (octet_third w)
              (octet_third-Yields w (omega (arith, le, digit-le d digit)))
              (λ t x h. (More-digit v w d digit refl t x h, inr more)) s))
  ]
]

Second-IsOctet :
    (d : ℕ) → digit_chars d ≡ true → (t : Bytes) (v : ℕ) → Second (d - b'0') t v → IsOctet (d ∷ t) v
Second-IsOctet d digit [] v (h, _) =
    let k = More-digit 0 (d - b'0') d digit (omega arith) [] v h in (k.0, k.1, k.2, tt)
Second-IsOctet d digit (c ∷ t) v (h, inl none') = absurd (cc)
Second-IsOctet d digit (c ∷ t) v (h, inr more) =
    let k = More-digit 0 (d - b'0') d digit (omega arith) (c ∷ t) v h in
    (k.0, k.1, k.2, ground (arith, more))

pub dec_octet_rule-Yields : Yields IsOctet dec_octet_rule
unfolding dec_octet_rule
dec_octet_rule-Yields [] = tt
dec_octet_rule-Yields (d ∷ s) = elim (Bool-cases (digit_chars d)) [
  | inr other ↦ rw other tt
  | inl digit ↦ rw digit (
      Holds-cons IsOctet d s (octet_second (d - b'0') s) (
        Yields-map (Second (d - b'0')) (λ t v. IsOctet (d ∷ t) v) (octet_second (d - b'0'))
          (octet_second-Yields (d - b'0') (omega (arith, digit-le d digit)))
          (Second-IsOctet d digit) s))
]

dot_then {ℓ} :
    {T : Type ℓ} (Q : Bytes → T → Type 0) (next : Rule T)
    → Yields (λ t w. Q (b'.' ∷ t) w) next
    → Yields Q (delim_rule b'.' >> next)
dot_then Q next h =
    Yields-bind (λ t _. t ≡ b'.' ∷ []) Q (λ _. next) (delim_rule b'.') (delim_rule-Yields b'.')
      (λ t _ e. rw e h)

octets_rule-Yields : Yields IsOctets octets_rule
unfolding octets_rule
octets_rule-Yields =
    Yields-bind IsOctet IsOctets _ dec_octet_rule dec_octet_rule-Yields (λ d0 v0 k0. dot_then _ _ (
      Yields-bind IsOctet _ _ dec_octet_rule dec_octet_rule-Yields (λ d1 v1 k1. dot_then _ _ (
        Yields-bind IsOctet _ _ dec_octet_rule dec_octet_rule-Yields (λ d2 v2 k2. dot_then _ _ (
          Yields-bind IsOctet _ _ dec_octet_rule dec_octet_rule-Yields (λ d3 v3 k3 s.
            ([], refl, (d0, d1, d2, d3, rw (append-nil d3) refl, k0, k1, k2, k3)))))))))

pub ipv4_address_rule-Yields : Yields IsDotted ipv4_address_rule
unfolding ipv4_address_rule
ipv4_address_rule-Yields =
    Yields-bind IsOctets IsDotted _ octets_rule octets_rule-Yields
      (λ t v k s. ([], refl, (v, rw (append-nil t) k, refl)))
