-- ===== src/Tests/Ipv6.antt =====
-- The theorems on IPv6 addresses at concrete addresses, and runs.
use boost_url.Base.{◌≤◌, ◌≡◌, refl, some, [], ◌∷◌, ◌++◌, arith, Bytes, codes, length, replicate, ok}
use boost_url.Chars.{hexdig_value}
use boost_url.Ipv4.{to_bytes, write_octet, print_octets}
use boost_url.Ipv6.{print_hex, print_ipv6}
use boost_url.Ipv6.Bounds.{print_ipv6_bounds}
use boost_url.Ipv6.Words.{h16_rule-print_hex}
use boost_url.Rfc.Ipv6.{h16_rule}

print_ipv6_run :
    (print_ipv6 (0x20 ∷ 1 ∷ 0xd ∷ 0xb8 ∷ replicate 10 0 ++ 0xab ∷ 0xcd ∷ [])
      ≡ some (codes "2001:db8::abcd"))
    × (print_ipv6 (replicate 16 0) ≡ some (codes "::"))
    × (print_ipv6 (1 ∷ 0x23 ∷ replicate 14 0) ≡ some (codes "123::"))
    × (print_ipv6 (replicate 10 0 ++ 0xff ∷ 0xff ∷ 127 ∷ 0 ∷ 0 ∷ 1 ∷ [])
        ≡ some (codes "::ffff:127.0.0.1"))
unfolding print_ipv6 write_octet print_octets to_bytes
print_ipv6_run = (refl, refl, refl, refl)

abbrev address_sample : Bytes
address_sample = 0x20 ∷ 1 ∷ 0xd ∷ 0xb8 ∷ replicate 10 0 ++ 0xab ∷ 0xcd ∷ []

print_ipv6_bounds_example :
    (text : Bytes) × (print_ipv6 address_sample ≡ some text) × (length text ≤ 46)
print_ipv6_bounds_example = print_ipv6_bounds address_sample refl

h16_rule-print_hex_example :
    h16_rule (print_hex 0xdb8 ++ codes "::1") ≡ ok ((0xd, 0xb8), codes "::1")
h16_rule-print_hex_example =
    h16_rule-print_hex 0xdb8 (codes "::1") (omega arith) (unfold hexdig_value in refl)
