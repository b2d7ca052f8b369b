-- ===== src/Ipv4/Bounds.antt =====
-- What the IPv4 rule returns fits into 32 bits.
use boost_url.Base.{
  ℕ, ◌+◌, ◌-◌, ◌*◌, ◌^◌, ◌≤◌, ◌<◌, ◌≡◌, inl, inr, true, [], ◌∷◌, arith, ltb, ◌==◌, if◌then◌else◌,
  Bool-cases, Bytes, ltb→ge, is_empty, ◌>>=◌, Holds, Holds-bind, Result, leftover, err, ok,
}
use boost_url.Chars.{digit_chars}
use boost_url.Grammar.{
  Rule, delim_rule, parse_all, octet_end, octet_third, octet_second, dec_octet_rule,
}
use boost_url.Ipv4.{
  from_bytes, to_bytes, octets_rule, ipv4_address_rule, parse_ipv4_address, Octets,
}
use boost_url.Ipv4.Laws.{from_bytes-to_bytes}
use mathlib.Core.Path.{subst}

abbrev IsOctet : ℕ × Bytes → Type 0
IsOctet p = p.0 < 256

octet_end-IsOctet : (v : ℕ) (s : Bytes) → v < 256 → Holds IsOctet (octet_end v s)
unfolding octet_end
octet_end-IsOctet v [] h = h
octet_end-IsOctet v (d ∷ s) h = elim (Bool-cases (digit_chars d)) [
  | inl digit ↦ rw digit tt
  | inr other ↦ rw other h
]

octet_third-IsOctet : (v : ℕ) (s : Bytes) → v < 256 → Holds IsOctet (octet_third v s)
unfolding octet_third
octet_third-IsOctet v [] h = h
octet_third-IsOctet v (d ∷ s) h = elim (Bool-cases (digit_chars d)) [
  | inr other ↦ rw other h
  | inl digit ↦ elim (Bool-cases (ltb 25 v)) [
    | inl large ↦ rw (digit, large) tt
    | inr small ↦ elim (Bool-cases (ltb 255 (10 * v + d - b'0'))) [
      | inl more ↦ rw (digit, small, more) tt
      | inr fits ↦
          rw (digit, small, fits)
            (octet_end-IsOctet (10 * v + d - b'0') s (omega (arith, ltb→ge {a = 255} fits)))
    ]
  ]
]

digit-le : (d : ℕ) → digit_chars d ≡ true → d ≤ b'9'
unfolding digit_chars
digit-le d h = ground arith

octet_second-IsOctet : (v : ℕ) (s : Bytes) → v < 10 → Holds IsOctet (octet_second v s)
unfolding octet_second
octet_second-IsOctet v [] h = omega arith
octet_second-IsOctet v (d ∷ s) h = elim (Bool-cases (digit_chars d)) [
  | inr other ↦ rw other (omega arith)
  | inl digit ↦ elim (Bool-cases (v == 0)) [
    | inl zero' ↦ rw (digit, zero') tt
    | inr more ↦
        rw (digit, more)
          (octet_third-IsOctet (10 * v + d - b'0') s (omega (arith, digit-le d digit)))
  ]
]

dec_octet_rule-IsOctet : (s : Bytes) → Holds IsOctet (dec_octet_rule s)
unfolding dec_octet_rule
dec_octet_rule-IsOctet [] = tt
dec_octet_rule-IsOctet (d ∷ s) = elim (Bool-cases (digit_chars d)) [
  | inr other ↦ rw other tt
  | inl digit ↦ rw digit (octet_second-IsOctet (d - b'0') s (omega (arith, digit-le d digit)))
]

abbrev AreOctets : Octets × Bytes → Type 0
AreOctets p =
    IsOctet (p.0.b0, p.1) × IsOctet (p.0.b1, p.1) × IsOctet (p.0.b2, p.1) × IsOctet (p.0.b3, p.1)

-- Reading an octet, then the rest; and a '.', then the rest.
then_octet :
    {B : Type 0} (Q : B → Type 0) (s : Bytes) (f : ℕ × Bytes → Result B)
    → ((p : ℕ × Bytes) → IsOctet p → Holds Q (f p))
    → Holds Q (dec_octet_rule s >>= f)
then_octet Q s f = Holds-bind IsOctet Q (dec_octet_rule s) f (dec_octet_rule-IsOctet s)

then_dot :
    {B : Type 0} (Q : B → Type 0) (s : Bytes) (f : Unit {0} × Bytes → Result B)
    → ((p : Unit {0} × Bytes) → Holds Q (f p))
    → Holds Q (delim_rule b'.' s >>= f)
then_dot Q s f k = elim (delim_rule b'.' s) as (λ r. Holds Q (r >>= f)) [
  | err why ↦ tt
  | ok p ↦ k p
]

octets_rule-AreOctets : (s : Bytes) → Holds AreOctets (octets_rule s)
unfolding octets_rule
octets_rule-AreOctets s = then_octet AreOctets s _ (λ (v0, s0) h0.
    then_dot AreOctets s0 _ (λ (t0, s1). then_octet AreOctets s1 _ (λ (v1, s2) h1.
      then_dot AreOctets s2 _ (λ (t1, s3). then_octet AreOctets s3 _ (λ (v2, s4) h2.
        then_dot AreOctets s4 _
          (λ (t2, s5). then_octet AreOctets s5 _ (λ (v3, s6) h3. (h0, h1, h2, h3))))))))

abbrev IsAddress : ℕ → Type 0
IsAddress addr = addr < 2 ^ 32

ipv4_address_rule-IsAddress : (s : Bytes) → Holds (λ p. IsAddress (p.0)) (ipv4_address_rule s)
unfolding ipv4_address_rule from_bytes
ipv4_address_rule-IsAddress s =
    Holds-bind AreOctets (λ p. IsAddress (p.0)) (octets_rule s) _ (octets_rule-AreOctets s)
      (λ p (h0, h1, h2, h3). omega (arith, h0, h1, h2, h3))

-- The test for leftover input, on a result of a rule.
whole_input-Holds {ℓ} :
    {A : Type ℓ} (P : A → Type 0) (r : Result (A × Bytes))
    → Holds (λ p. P (p.0)) r
    → Holds P (elim r [
      | err why ↦ err why
      | ok (value, rest) ↦ if is_empty rest then ok value else err leftover
    ])
whole_input-Holds P (err why) h = tt
whole_input-Holds P (ok (value, [])) h = h
whole_input-Holds P (ok (value, c ∷ rest)) h = tt

parse_all-Holds {ℓ} :
    {A : Type ℓ} (P : A → Type 0) (rule : Rule A) (s : Bytes)
    → Holds (λ p. P (p.0)) (rule s)
    → Holds P (parse_all rule s)
unfolding parse_all
parse_all-Holds P rule s h = whole_input-Holds P (rule s) h

-- Whatever the input, an address that `parse_ipv4_address` returns is below 2 ^ 32, and `to_bytes`
-- takes it apart without loss.
pub parse_ipv4_address_bounds :
    (s : Bytes) (addr : ℕ)
    → parse_ipv4_address s ≡ ok addr
    → (addr < 2 ^ 32) × (from_bytes (to_bytes addr) ≡ addr)
unfolding parse_ipv4_address
parse_ipv4_address_bounds s addr e =
    let small : addr < 2 ^ 32 =
      subst (Holds IsAddress) e
        (parse_all-Holds IsAddress ipv4_address_rule s (ipv4_address_rule-IsAddress s)) in
    (small, from_bytes-to_bytes addr small)
