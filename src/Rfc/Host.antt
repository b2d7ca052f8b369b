-- ===== src/Rfc/Host.antt =====
-- Rules for hosts: rfc/detail/impl/{ipvfuture_rule,ip_literal_rule,host_rule}.ipp and
-- rfc/detail/reg_name_rule.hpp.
pub mod Ipv4
pub mod Yields
use boost_url.Base.{
  ℕ, Bool, true, false, not, [], ◌∷◌, ◌==◌, if◌then◌else◌, Bytes, replicate, is_empty, invalid, err,
  ok,
}
use boost_url.Base.Slices.{write}
use boost_url.Chars.{CharSet, ◌∪◌, hexdig_chars, unreserved_chars, sub_delim_chars, reg_name_chars}
use boost_url.Grammar.{Rule, delim_rule, ◌>>=◌, ◌>>◌, give, consumed, token_rule}
use boost_url.Ipv4.{to_bytes, ipv4_address_rule}
use boost_url.Pct.View.{PctEncodedView}
use boost_url.Rfc.Ipv6.{ipv6_address_rule}
use boost_url.Rfc.PctEncoded.{pct_encoded_rule}
use boost_url.Rfc.Userinfo.{no_view}
use boost_url.Url.{HostType}

-- `ipvfuture_rule_t::value_type`
pub record IpvFuture : Type 0 where
  pub str : Bytes
  pub major : Bytes
  pub minor : Bytes

unfoldable pub minor_chars : CharSet
unfolding unreserved_chars sub_delim_chars
minor_chars = unreserved_chars ∪ sub_delim_chars ∪ ◌==◌ b':'

-- The first two of the tuple's four strings: the delimiters are not squelched, so these are the "v"
-- and the digits behind it.
unfoldable pub ipvfuture_tuple : Rule (Bytes × Bytes)
unfolding delim_rule token_rule hexdig_chars minor_chars
ipvfuture_tuple =
    delim_rule b'v'
    >> (token_rule hexdig_chars >>= λ digits.
        delim_rule b'.' >> (token_rule minor_chars >> give (b'v' ∷ [], digits)))

unfoldable pub ipvfuture_rule : Rule IpvFuture
unfolding ipvfuture_tuple consumed
ipvfuture_rule s = elim (ipvfuture_tuple s) [
  | err why ↦ err why
  | ok ((major, minor), rest) ↦
      if is_empty major
      then err invalid
      else if is_empty minor
      then err invalid
      else ok (record { str = consumed s rest; major = major; minor = minor }, rest)
]

-- `ip_literal_rule_t::value_type`
pub record IpLiteral : Type 0 where
  pub is_ipv6 : Bool
  pub ipv6 : Bytes
  pub ipvfuture : Bytes

unfoldable pub ipv6_literal : Rule IpLiteral
unfolding ipv6_address_rule delim_rule
ipv6_literal = do
  address ← ipv6_address_rule
  _ ← delim_rule b']'
  give (record { is_ipv6 = true; ipv6 = address; ipvfuture = [] })

unfoldable pub ipvfuture_literal : Rule IpLiteral
unfolding ipvfuture_rule delim_rule
ipvfuture_literal = do
  v ← ipvfuture_rule
  _ ← delim_rule b']'
  give (record { is_ipv6 = false; ipv6 = replicate 16 0; ipvfuture = v.str })

-- Behind the '['.
unfoldable pub ip_literal_inside : Rule IpLiteral
unfolding ipv6_literal ipvfuture_literal
ip_literal_inside [] = err invalid
ip_literal_inside (c ∷ s) =
    if not (c == b'v') then ipv6_literal (c ∷ s) else ipvfuture_literal (c ∷ s)

unfoldable pub ip_literal_rule : Rule IpLiteral
unfolding delim_rule ip_literal_inside
ip_literal_rule = delim_rule b'[' >> ip_literal_inside

-- `host_rule_t::value_type`; the text that was matched is its `match`.
pub record HostValue : Type 0 where
  pub host_type : HostType
  pub text : Bytes
  pub addr : Bytes
  pub name : PctEncodedView

abbrev pub no_addr : Bytes
no_addr = replicate 16 0

unfoldable pub reg_name_rule : Rule PctEncodedView
unfolding pct_encoded_rule reg_name_chars
reg_name_rule = pct_encoded_rule reg_name_chars

-- The value for an address, with the characters from `it0` on.
unfoldable pub literal_host : Bytes → IpLiteral → Rule HostValue
unfolding consumed
literal_host it0 v rest =
    if v.is_ipv6
    then ok (
      record { host_type = HostType.ipv6; text = consumed it0 rest; addr = v.ipv6; name = no_view },
      rest,
    )
    else ok (
      record {
        host_type = HostType.ipvfuture;
        text = consumed it0 rest;
        addr = no_addr;
        name = no_view;
      },
      rest,
    )

-- The four bytes of an IPv4 address in front of the sixteen.
abbrev pub ipv4_addr : ℕ → Bytes
ipv4_addr address = write no_addr 0 (
    (to_bytes address).b0
    ∷ (to_bytes address).b1
    ∷ (to_bytes address).b2
    ∷ (to_bytes address).b3
    ∷ [])

unfoldable pub ipv4_host : Bytes → ℕ → Rule HostValue
unfolding consumed to_bytes
ipv4_host it0 address rest = ok (
  record {
    host_type = HostType.ipv4;
    text = consumed it0 rest;
    addr = ipv4_addr address;
    name = no_view;
  },
  rest,
)

unfoldable pub name_host : Bytes → PctEncodedView → Rule HostValue
unfolding consumed
name_host it0 name rest = ok (
  record { host_type = HostType.name; text = consumed it0 rest; addr = no_addr; name = name },
  rest,
)

unfoldable pub host_rule : Rule HostValue
unfolding ip_literal_rule literal_host ipv4_address_rule ipv4_host reg_name_rule name_host
host_rule [] =
    ok (record { host_type = HostType.name; text = []; addr = no_addr; name = no_view }, [])
host_rule (c ∷ s) =
    if c == b'['
    then (ip_literal_rule >>= literal_host (c ∷ s)) (c ∷ s)
    else elim (ipv4_address_rule (c ∷ s)) [
      | ok (address, rest) ↦ ipv4_host (c ∷ s) address rest
      | err _ ↦ (reg_name_rule >>= name_host (c ∷ s)) (c ∷ s)
    ]
