-- ===== src/Tests/Rfc.antt =====
-- Instances of the theorems on the rules of the RFC, and test runs.
use boost_url.Base.{
  ◌≡◌, refl, ◌⊎◌, inl, inr, true, false, ◌∷◌, ◌++◌, arith, Bytes, codes, All, Holds, ok,
}
use boost_url.Chars.{
  alpha_chars, digit_chars, alnum_chars, hexdig_value, unreserved_chars, sub_delim_chars, pchars,
}
use boost_url.Grammar.{delim_rule, ◌>>◌}
use boost_url.Grammar.Yields.{Taken}
use boost_url.Ipv4.{to_bytes, print_impl}
use boost_url.Pct.Grammar.{Encoded, done, byte, triple}
use boost_url.Pct.View.{construct}
use boost_url.Rfc.Host.{host_rule}
use boost_url.Rfc.Host.Ipv4.{ipv4_value, host_rule-print_impl}
use boost_url.Rfc.Host.Yields.{IsHost, host_rule-Yields}
use boost_url.Rfc.Ipv6.{ipv6_address_rule}
use boost_url.Rfc.Ipv6.Forms.{IsIpv6}
use boost_url.Rfc.Ipv6.Yields.{ipv6_address_rule-Yields}
use boost_url.Rfc.Path.{
  segment_nz_rule, segment_nz_nc_rule, segment_ns_rule, path_abempty_rule, path_absolute_rule,
  path_noscheme_rule, path_rootless_rule,
}
use boost_url.Rfc.Path.Ends.{IsWhole, IsRead, IsMissing, path_rules-NoMore}
use boost_url.Rfc.PctEncoded.{hex_pair, default_opts, pct_encoded_rule}
use boost_url.Rfc.PctEncoded.Complete.{Ends, pct_encoded_rule-Encoded}
use boost_url.Rfc.Uri.{uri_rule}
use boost_url.Rfc.Uri.Succeeds.{Succeeds, uri_rule-Succeeds}
use boost_url.Rfc.Userinfo.{scheme_chars}

abbrev uri_sample : Bytes
uri_sample = codes "http://user:pa%73s@[::1]:8080/a/b?k=v&x#top"

abbrev authority_sample : Bytes
authority_sample = codes "user:pass@example.com:80"

uri_rule-Succeeds_example : Succeeds uri_rule ((b'm' ∷ codes "ailto") ++ b':' ∷ codes "user@host%")
uri_rule-Succeeds_example =
    uri_rule-Succeeds b'm' (codes "ailto") (codes "user@host%") letter letters refl
  where
    letter : alpha_chars b'm' ≡ true
    letter = unfold alpha_chars in refl

    letters : All (λ d. scheme_chars d ≡ true) (codes "ailto")
    letters =
        unfold scheme_chars in unfold alnum_chars in (refl, (refl, (refl, (refl, (refl, tt)))))

host_rule-Yields_example : Holds (Taken IsHost (codes "[1::2]:80")) (host_rule (codes "[1::2]:80"))
host_rule-Yields_example = host_rule-Yields (codes "[1::2]:80")

-- "127.0.0.1.com" is a name by the grammar; ".com" is left here.
host_rule-print_impl_example :
    host_rule (print_impl 0x7f00_1901 ++ codes ".com")
    ≡ ok (ipv4_value (print_impl 0x7f00_1901) 0x7f00_1901, codes ".com")
host_rule-print_impl_example =
    host_rule-print_impl 0x7f00_1901 (codes ".com") (omega arith)
      (unfold to_bytes in
        (
          (omega arith, inr (omega arith)),
          (omega arith, inl (omega arith)),
          (omega arith, inl (omega arith)),
          (omega arith, inl (omega arith)),
        ))
      (unfold digit_chars in refl)

ipv6_address_rule-Yields_example :
    Holds (Taken IsIpv6 (codes "1::2:127.0.0.1]")) (ipv6_address_rule (codes "1::2:127.0.0.1]"))
ipv6_address_rule-Yields_example = ipv6_address_rule-Yields (codes "1::2:127.0.0.1]")

path_rules-NoMore_example :
    IsWhole path_abempty_rule (codes "a//b?")
    × (IsMissing (delim_rule b'/' >> segment_ns_rule) path_absolute_rule (codes "a//b?")
        ⊎ (IsRead (delim_rule b'/' >> segment_ns_rule) (codes "a//b?")
            × IsWhole path_absolute_rule (codes "a//b?")))
    × (IsMissing segment_nz_nc_rule path_noscheme_rule (codes "a//b?")
        ⊎ (IsRead segment_nz_nc_rule (codes "a//b?") × IsWhole path_noscheme_rule (codes "a//b?")))
    × (IsMissing segment_nz_rule path_rootless_rule (codes "a//b?")
        ⊎ (IsRead segment_nz_rule (codes "a//b?") × IsWhole path_rootless_rule (codes "a//b?")))
path_rules-NoMore_example = path_rules-NoMore (codes "a//b?") (omega arith)

escape_sample : Encoded pchars hex_pair (codes "a%20b") 3
escape_sample = unfold hexdig_value in byte member_a (triple refl refl (byte member_b done))
  where
    member_a : pchars b'a' ≡ true
    member_a = unfold pchars in unfold unreserved_chars in refl

    member_b : pchars b'b' ≡ true
    member_b = unfold pchars in unfold unreserved_chars in refl

no_pct : pchars b'%' ≡ false
unfolding pchars unreserved_chars sub_delim_chars
no_pct = refl

slash-Ends : Ends pchars (codes "/c")
unfolding pchars unreserved_chars sub_delim_chars
slash-Ends = (refl, refl)

pct_encoded_rule-Encoded_example :
    pct_encoded_rule pchars (codes "a%20b" ++ codes "/c")
    ≡ ok (construct (codes "a%20b") 3 default_opts, codes "/c")
pct_encoded_rule-Encoded_example =
    pct_encoded_rule-Encoded pchars no_pct (codes "a%20b") 3 escape_sample (codes "/c") slash-Ends
