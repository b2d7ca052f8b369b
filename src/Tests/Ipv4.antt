-- ===== src/Tests/Ipv4.antt =====
-- Instances of the theorems on IPv4 addresses, and test runs.
use boost_url.Base.{
  ◌+◌, ◌*◌, ◌/◌, ◌%◌, ◌^◌, ◌<◌, ◌≡◌, refl, ◌≢◌, inl, inr, true, [], ◌∷◌, arith, codes, ok,
}
use boost_url.Chars.{digit_chars}
use boost_url.Grammar.{delim_rule, parse_all, octet_end, octet_third, octet_second, dec_octet_rule}
use boost_url.Ipv4.{
  from_bytes, to_bytes, write_octet, print_impl, is_loopback, octets_rule, ipv4_address_rule,
  parse_ipv4_address,
}
use boost_url.Ipv4.Bounds.{parse_ipv4_address_bounds}
use boost_url.Ipv4.Laws.{parse_ipv4_address-print_impl, write_octet_ambiguous}

write_octet_105 : write_octet 105 ≡ b'1' ∷ b'5' ∷ []
unfolding write_octet
write_octet_105 = refl

parse_sample : parse_ipv4_address (codes "127.0.0.1") ≡ ok 0x7f00_0001
unfolding parse_ipv4_address parse_all ipv4_address_rule octets_rule dec_octet_rule octet_second
    octet_third octet_end delim_rule digit_chars from_bytes
parse_sample = refl

is_loopback_sample : is_loopback 0x7f00_0001 ≡ true
unfolding is_loopback
is_loopback_sample = refl

parse_ipv4_address-print_impl_example : parse_ipv4_address (print_impl 0x7f00_1901) ≡ ok 0x7f00_1901
parse_ipv4_address-print_impl_example = parse_ipv4_address-print_impl 0x7f00_1901 (omega arith) (
    unfold to_bytes in
    (
      (omega arith, inr (omega arith)),
      (omega arith, inl (omega arith)),
      (omega arith, inl (omega arith)),
      (omega arith, inl (omega arith)),
    ))

write_octet_ambiguous_example :
    (write_octet 105 ≡ write_octet (105 / 100 * 10 + 105 % 10)) × (105 / 100 * 10 + 105 % 10 ≢ 105)
write_octet_ambiguous_example = write_octet_ambiguous 105 (omega arith) (omega arith) (omega arith)

parse_ipv4_address_bounds_example :
    (0x7f00_0001 < 2 ^ 32) × (from_bytes (to_bytes 0x7f00_0001) ≡ 0x7f00_0001)
parse_ipv4_address_bounds_example =
    parse_ipv4_address_bounds (codes "127.0.0.1") 0x7f00_0001 parse_sample
