-- ===== src/Tests/Host.antt =====
-- The host setters and the setters of parsed strings, on "http://u@h:80/p?q#f" and "a".
use boost_url.Base.{ℕ, ◌≡◌, refl, [], Bytes, codes, Result, err, ok}
use boost_url.Chars.{digit_chars, hexdig_value, host_chars}
use boost_url.Grammar.{octet_second, dec_octet_rule}
use boost_url.Ipv4.{from_bytes, write_octet, print_octets, octets_rule}
use boost_url.Pct.Encode.{pct_encode_bytes, pct_encode}
use boost_url.Tests.Path.{one_segment}
use boost_url.Tests.Sample.{cut, sample, chars_of}
use boost_url.Url.{id_host, len_range, collapse, HostType, Url}
use boost_url.Url.Host.{
  set_host, set_encoded_host, set_port_string, set_encoded_fragment, set_encoded_userinfo,
  set_encoded_authority,
}
use boost_url.Url.Resize.{shrink_range, grow_range}

abbrev host_left : Result Url → Bytes × ℕ × HostType
host_left (ok u) = (u.chars, u.decoded_ id_host, u.host_type_)
host_left (err _) = ([], 0, HostType.none)

host_run :
    (host_left (set_host (codes "a b") sample)
      ≡ (codes "http://u@a%20b:80/p?q#f", 3, HostType.name))
    × (host_left (set_host (codes "1.2.3.4") sample)
        ≡ (codes "http://u@1.2.3.4:80/p?q#f", 7, HostType.ipv4))
    × (host_left (set_encoded_host (codes "%41b") sample)
        ≡ (codes "http://u@%41b:80/p?q#f", 2, HostType.name))
    × (chars_of (set_port_string (codes "090") sample) ≡ codes "http://u@h:090/p?q#f")
    × (chars_of (set_encoded_fragment (codes "%20") sample) ≡ codes "http://u@h:80/p?q#%20")
    × (chars_of (set_encoded_userinfo (codes "a:b") sample) ≡ codes "http://a:b@h:80/p?q#f")
    × (chars_of (set_encoded_authority (codes "a@b") sample) ≡ codes "http://a@b/p?q#f")
    × (chars_of (set_encoded_authority (codes "b:1") one_segment) ≡ codes "//b:1/a")
unfolding set_host set_encoded_host set_port_string set_encoded_fragment set_encoded_userinfo
    set_encoded_authority cut octets_rule dec_octet_rule digit_chars pct_encode_bytes host_chars
    len_range grow_range shrink_range collapse pct_encode octet_second print_octets write_octet
    from_bytes hexdig_value
host_run = (refl, refl, refl, refl, refl, refl, refl, refl)
