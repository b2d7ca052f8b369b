-- ===== src/Tests/RfcRuns.antt =====
-- Runs of the rules of the RFC.
use boost_url.Base.{◌≡◌, refl, List, [], ◌∷◌, Bytes, codes, replicate, Result, err, ok}
use boost_url.Chars.{
  alpha_chars, digit_chars, alnum_chars, hexdig_chars, hexdig_value, to_lower, to_upper,
  unreserved_chars, sub_delim_chars, gen_delim_chars, reserved_chars, pchars, user_chars,
  password_chars, userinfo_chars, host_chars, reg_name_chars, segment_chars, path_chars,
  query_chars, fragment_chars,
}
use boost_url.Grammar.{
  delim_rule, parse_all, consumed, find_if_not, token_rule, optional_rule, not_empty_rule,
  octet_end, octet_third, octet_second, dec_octet_rule,
}
use boost_url.Ipv4.{
  from_bytes, to_bytes, write_octet, print_octets, print_impl, is_loopback, is_unspecified,
  is_multicast, to_buffer, octets_rule, ipv4_address_rule, parse_ipv4_address,
}
use boost_url.Pct.Decode.{pct_decode_bytes_unchecked}
use boost_url.Pct.View.{
  construct, pct_encoded_view, digits_behind, deref, advance, read_from, contents,
}
use boost_url.Port.{port_end, port_overflow, port_loop, port_rule, port_part_rule}
use boost_url.Range.{range_loop, range_rule}
use boost_url.Rfc.Host.{
  minor_chars, ipvfuture_tuple, ipvfuture_rule, ipv6_literal, ipvfuture_literal, ip_literal_inside,
  ip_literal_rule, reg_name_rule, literal_host, ipv4_host, name_host, host_rule,
}
use boost_url.Rfc.Ipv6.{
  h16_digits, h16_rule, maybe_octet, fill_zeros, ipv4_tail, read_word, after_colon, at_word,
  ipv6_loop, ipv6_address_rule,
}
use boost_url.Rfc.Path.{
  segment_rule, segment_nz_rule, no_colon_chars, segment_nz_nc_rule, slash_segment_rule,
  segment_ns_rule, path_abempty_rule, path_absolute_rule, path_noscheme_rule, path_rootless_rule,
}
use boost_url.Rfc.PctEncoded.{pct_scan, pct_encoded_rule}
use boost_url.Rfc.Query.{
  key_chars, value_chars, query_value_rule, query_param_rule, query_rule, query_part_rule,
  fragment_rule, fragment_part_rule,
}
use boost_url.Rfc.Uri.{
  userinfo_part_rule, with_userinfo, with_port, authority_parts, authority_rule,
  authority_path_rule, absolute_part, path_or_empty, hier_part_rule, untested_absolute_part,
  relative_part_rule, with_hier_part, with_query, with_frag, scheme_part_rule, uri_parts, uri_rule,
  absolute_uri_parts, absolute_uri_rule, relative_ref_parts, relative_ref_rule, origin_path_rule,
  origin_form_parts, origin_form_rule,
}
use boost_url.Rfc.Userinfo.{
  scheme_chars, scheme_rule, uchars, pwchars, password_rule, userinfo_rule,
}
use boost_url.Scheme.{string_to_scheme, to_string, default_port}
use boost_url.Url.{
  id_scheme, id_user, id_pass, id_host, id_port, id_path, id_query, id_frag, len_range, len, get,
  get_range, adjust, collapse, set_size, split, Url,
}
use boost_url.Url.Apply.{
  path_segments, apply_scheme, apply_userinfo, apply_host, apply_port, apply_authority, apply_path,
  apply_query, apply_frag,
}

-- The parts of a URL, and what is left of the input.
abbrev shown : Result (Url × Bytes) → List Bytes
shown (err why) = []
shown (ok (u, rest)) =
    get u id_scheme
    ∷ get u id_user
    ∷ get u id_pass
    ∷ get u id_host
    ∷ get u id_port
    ∷ get u id_path
    ∷ get u id_query
    ∷ get u id_frag
    ∷ rest
    ∷ []

-- A full URL; a path that does not start with a '/', broken off at a bad escape; a relative reference; an
-- address with a name's characters behind it; a "::" in the middle and an IPv4 address at the end.
rules_run :
    (shown (uri_rule (codes "http://user:pa%73s@[::1]:8080/a/b?k=v&x#top"))
      ≡ codes "http:"
        ∷ codes "//user"
        ∷ codes ":pa%73s@"
        ∷ codes "[::1]"
        ∷ codes ":8080"
        ∷ codes "/a/b"
        ∷ codes "?k=v&x"
        ∷ codes "#top"
        ∷ []
        ∷ [])
    × (shown (uri_rule (codes "mailto:a/b%"))
        ≡ codes "mailto:" ∷ [] ∷ [] ∷ [] ∷ [] ∷ codes "a" ∷ [] ∷ [] ∷ codes "/b%" ∷ [])
    × (shown (relative_ref_rule (codes "../a?#"))
        ≡ [] ∷ [] ∷ [] ∷ [] ∷ [] ∷ codes "../a" ∷ codes "?" ∷ codes "#" ∷ [] ∷ [])
    × (shown (authority_rule (codes "1.2.3.4.com:80"))
        ≡ [] ∷ [] ∷ [] ∷ codes "1.2.3.4" ∷ [] ∷ [] ∷ [] ∷ [] ∷ codes ".com:80" ∷ [])
    × (ipv6_address_rule (codes "1:2::7:1.2.3.4]")
        ≡ ok (0 ∷ 1 ∷ 0 ∷ 2 ∷ 0 ∷ 0 ∷ 0 ∷ 0 ∷ 0 ∷ 0 ∷ 0 ∷ 7 ∷ 1 ∷ 2 ∷ 3 ∷ 4 ∷ [], codes "]"))
    × (ipv6_address_rule (codes "::]") ≡ ok (replicate 16 0, codes "]"))
    × (ipv6_address_rule (codes "1:2:3:4:5:6:7:ffff")
        ≡ ok (0 ∷ 1 ∷ 0 ∷ 2 ∷ 0 ∷ 3 ∷ 0 ∷ 4 ∷ 0 ∷ 5 ∷ 0 ∷ 6 ∷ 0 ∷ 7 ∷ 255 ∷ 255 ∷ [], []))
unfolding absolute_part absolute_uri_parts absolute_uri_rule adjust advance after_colon alnum_chars
    alpha_chars apply_authority apply_frag apply_host apply_path apply_port apply_query apply_scheme
    apply_userinfo at_word authority_parts authority_path_rule authority_rule collapse construct
    consumed contents dec_octet_rule default_port delim_rule deref digit_chars digits_behind
    fill_zeros find_if_not fragment_chars fragment_part_rule fragment_rule from_bytes
    gen_delim_chars get get_range h16_digits h16_rule hexdig_chars hexdig_value hier_part_rule
    host_chars host_rule ip_literal_inside ip_literal_rule ipv4_address_rule ipv4_host ipv4_tail
    ipv6_address_rule ipv6_literal ipv6_loop ipvfuture_literal ipvfuture_rule ipvfuture_tuple
    is_loopback is_multicast is_unspecified key_chars len len_range literal_host maybe_octet
    minor_chars name_host no_colon_chars not_empty_rule octet_end octet_second octet_third
    octets_rule optional_rule origin_form_parts origin_form_rule origin_path_rule parse_all
    parse_ipv4_address password_chars password_rule path_abempty_rule path_absolute_rule path_chars
    path_noscheme_rule path_or_empty path_rootless_rule path_segments pchars pct_encoded_rule
    pct_encoded_view pct_scan port_end port_loop port_overflow port_part_rule port_rule print_impl
    print_octets pwchars query_chars query_param_rule query_part_rule query_rule query_value_rule
    range_loop range_rule read_from read_word reg_name_chars reg_name_rule relative_part_rule
    relative_ref_parts relative_ref_rule reserved_chars scheme_chars scheme_part_rule scheme_rule
    segment_chars segment_ns_rule segment_nz_nc_rule segment_nz_rule segment_rule set_size
    slash_segment_rule split string_to_scheme sub_delim_chars to_buffer to_bytes to_lower to_string
    to_upper token_rule uchars unreserved_chars untested_absolute_part uri_parts uri_rule user_chars
    userinfo_chars userinfo_part_rule userinfo_rule value_chars with_frag with_hier_part with_port
    with_query with_userinfo write_octet pct_decode_bytes_unchecked
rules_run = (refl, refl, refl, refl, refl, refl, refl)
