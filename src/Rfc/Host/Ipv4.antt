-- ===== src/Rfc/Host/Ipv4.antt =====
-- An IPv4 address at the front decides the host.
use boost_url.Base.{
  ℕ, ◌^◌, ◌<◌, ◌≡◌, refl, ap, ◌∙◌, inl, inr, true, [], ◌∷◌, ◌++◌, ◌==◌, Bool-cases, ==_iff, Bytes,
  mismatch, err, ok,
}
use boost_url.Chars.{digit_chars}
use boost_url.Grammar.{consumed, dec_octet_rule}
use boost_url.Grammar.Yields.{consumed-append}
use boost_url.Ipv4.{to_bytes, print_impl, octets_rule, ipv4_address_rule}
use boost_url.Ipv4.Laws.{PrintsAll, NoDigit, ipv4_address_rule-rest}
use boost_url.Rfc.Host.{ipv4_addr, ipv4_host, host_rule, HostValue}
use boost_url.Rfc.Userinfo.{no_view}
use boost_url.Url.{HostType}

abbrev pub ipv4_value : Bytes → ℕ → HostValue
ipv4_value text address = record {
  host_type = HostType.ipv4;
  text = text;
  addr = ipv4_addr address;
  name = no_view;
}

no_ipv4_at_end : ipv4_address_rule [] ≡ err mismatch
unfolding ipv4_address_rule octets_rule dec_octet_rule
no_ipv4_at_end = refl

no_ipv4 : (c : ℕ) (s : Bytes) → (c == b'[') ≡ true → ipv4_address_rule (c ∷ s) ≡ err mismatch
unfolding ipv4_address_rule octets_rule dec_octet_rule digit_chars
no_ipv4 c s h = rw ((==_iff c b'[').0 h) refl

host_rule-ipv4 :
    (s rest : Bytes) (address : ℕ)
    → ipv4_address_rule s ≡ ok (address, rest)
    → host_rule s ≡ ok (ipv4_value (consumed s rest) address, rest)
unfolding host_rule ipv4_host
host_rule-ipv4 [] rest address e = absurd (let f = no_ipv4_at_end in cc)
host_rule-ipv4 (c ∷ s) rest address e = elim (Bool-cases (c == b'[')) [
  | inl bracket ↦ absurd (let f = no_ipv4 c s bracket in cc)
  | inr other ↦ rw (other, e) refl
]

-- The address that `print_impl` writes is the host, whatever stands behind it but a digit: the rule
-- does not try a name. The provision is that no octet from 100 on has a remainder below 10 by 100.
pub host_rule-print_impl :
    (address : ℕ) (rest : Bytes)
    → address < 2 ^ 32
    → PrintsAll (to_bytes address)
    → NoDigit rest
    → host_rule (print_impl address ++ rest) ≡ ok (ipv4_value (print_impl address) address, rest)
host_rule-print_impl address rest small h k =
    host_rule-ipv4 (print_impl address ++ rest) rest address
      (ipv4_address_rule-rest address rest small h k)
    ∙ ap (λ t. ok (ipv4_value t address, rest)) (consumed-append (print_impl address) rest)
