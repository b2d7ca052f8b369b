-- ===== src/Ipv4.antt =====
-- IPv4 addresses: ipv4_address.hpp, impl/ipv4_address.ipp and rfc/impl/ipv4_address_rule.ipp.
pub mod Laws
pub mod Bounds
pub mod Yields
use boost_url.Base.{
  ℕ, ◌+◌, ◌*◌, ◌/◌, ◌%◌, ◌^◌, Bool, [], ◌∷◌, ◌++◌, ltb, leb, ◌==◌, if◌then◌else◌, Bytes, ◌>>=◌,
  Result, length_error, err, ok,
}
use boost_url.Grammar.{Rule, delim_rule, parse_all, dec_octet_rule}
use Prim.Native.Nat.{bit_and}

-- `bytes_type`
pub record Octets : Type 0 where
  pub b0 : ℕ
  pub b1 : ℕ
  pub b2 : ℕ
  pub b3 : ℕ

-- The 32-bit address of four octets. The shifted octets have no bit in common, so `|` is a sum.
unfoldable pub from_bytes : Octets → ℕ
from_bytes v = v.b0 * 2 ^ 24 + v.b1 * 2 ^ 16 + v.b2 * 2 ^ 8 + v.b3

unfoldable pub to_bytes : ℕ → Octets
to_bytes addr = record {
  b0 = addr / 2 ^ 24 % 256;
  b1 = addr / 2 ^ 16 % 256;
  b2 = addr / 2 ^ 8 % 256;
  b3 = addr % 256;
}

-- `print_impl`: the local function `write`, on a value below 256.
unfoldable pub write_octet : ℕ → Bytes
write_octet v =
    let hundreds = if leb 100 v then (b'0' + v / 100) ∷ [] else [] in
    let v1 = if leb 100 v then v % 100 else v in
    let tens = if leb 10 v1 then (b'0' + v1 / 10) ∷ [] else [] in
    let v2 = if leb 10 v1 then v1 % 10 else v1 in hundreds ++ (tens ++ (b'0' + v2) ∷ [])

unfoldable pub print_octets : Octets → Bytes
print_octets v =
    write_octet v.b0
    ++ b'.' ∷ (write_octet v.b1 ++ b'.' ∷ (write_octet v.b2 ++ b'.' ∷ write_octet v.b3))

unfoldable pub print_impl : ℕ → Bytes
print_impl addr = print_octets (to_bytes addr)

unfoldable pub is_loopback : ℕ → Bool
is_loopback addr = bit_and addr 0xff00_0000 == 0x7f00_0000

unfoldable pub is_unspecified : ℕ → Bool
is_unspecified addr = addr == 0

unfoldable pub is_multicast : ℕ → Bool
is_multicast addr = bit_and addr 0xf000_0000 == 0xe000_0000

-- `to_buffer`: `max_str_len` is 15.
unfoldable pub to_buffer : ℕ → ℕ → Result Bytes
unfolding print_impl
to_buffer dest_size addr = if ltb dest_size 15 then err length_error else ok (print_impl addr)

-- The tuple of `ipv4_address_rule`: four octets, with dots between them.
unfoldable pub octets_rule : Rule Octets
octets_rule s = do
  (v0, s) ← dec_octet_rule s
  (_, s) ← delim_rule b'.' s
  (v1, s) ← dec_octet_rule s
  (_, s) ← delim_rule b'.' s
  (v2, s) ← dec_octet_rule s
  (_, s) ← delim_rule b'.' s
  (v3, s) ← dec_octet_rule s
  ok (record { b0 = v0; b1 = v1; b2 = v2; b3 = v3 }, s)

unfoldable pub ipv4_address_rule : Rule ℕ
ipv4_address_rule s = do (v, s) ← octets_rule s; ok (from_bytes v, s)

unfoldable pub parse_ipv4_address : Bytes → Result ℕ
parse_ipv4_address = parse_all ipv4_address_rule
