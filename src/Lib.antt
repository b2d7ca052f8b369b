-- ===== src/Lib.antt =====
-- Boost.URL: the library's percent-encoding, its table of URL parts with the setters that edit it,
-- and the rules of RFC 3986 that parse a URL into such a table.
--
-- A URL is one buffer of characters with a table of the offsets at which its parts start
-- (`url_impl`, in include/boost/url/detail/url_impl.hpp); the modifiers of `url_base`
-- (include/boost/url/impl/url_base.ipp) move the characters behind an edited part, adjust the table,
-- and write the new characters, percent-encoded by include/boost/url/impl/pct_encoding.hpp with a
-- character set from include/boost/url/grammar and include/boost/url/rfc. Rules parse from the front
-- of the input and leave the rest.
--
-- Paths below are under include/boost/url.
--   Base            shared names, tests, lists, slices of lists, error results (grammar/error.hpp,
--                   error.hpp)
--   Chars           character sets (grammar/*_chars.hpp, rfc/*_chars.hpp, rfc/detail/charsets.hpp)
--   Pct/Decode      pct_decode_bytes_unchecked, pct_decode_unchecked (impl/pct_encoding.ipp)
--   Pct/Validate    validate_pct_encoding and pct_decode (impl/pct_encoding.hpp and .ipp)
--   Pct/Encode      pct_encode_bytes, pct_encode, pct_encode_to_string (impl/pct_encoding.hpp)
--   Pct/View        pct_encoded_view (pct_encoded_view.hpp, impl/pct_encoded_view.hpp and .ipp)
--   Scheme          string_to_scheme, to_string, default_port (impl/scheme.ipp)
--   Grammar         parse, delim_rule, token_rule, optional_rule, not_empty_rule, dec_octet_rule
--                   (grammar/impl)
--   Range           range_rule (grammar/impl/range_rule.hpp)
--   Unsigned        unsigned_rule, literal_rule (grammar/impl/unsigned_rule.hpp, literal_rule.ipp)
--   Ipv4            ipv4_address and its rule (impl/ipv4_address.ipp, rfc/impl/ipv4_address_rule.ipp)
--   Ipv6            ipv6_address: its text and its constructors (impl/ipv6_address.ipp)
--   Port            port_rule, port_part_rule (rfc/detail/impl/port_rule.ipp)
--   Rfc/PctEncoded, Rfc/Userinfo, Rfc/Ipv6, Rfc/Host, Rfc/Path, Rfc/Query
--                   the rules for the parts of a URL (rfc/impl, rfc/detail and rfc/detail/impl)
--   Rfc/Uri         authority_rule, uri_rule, relative_ref_rule, absolute_uri_rule, origin_form_rule
--                   (rfc/impl), hier_part_rule and relative_part_rule (rfc/detail/impl)
--   Rfc/Parse       uri_reference_rule with variant_rule (rfc/impl, grammar/impl/variant_rule.hpp),
--                   parse_uri, parse_uri_reference and the others (impl/url_view.ipp,
--                   impl/authority_view.ipp)
--   Compare         the comparisons of plain and encoded strings (detail/impl/normalize.ipp)
--   Compare/Digest  fnv_1a (detail/normalize.hpp), digest_encoded, ci_digest (detail/impl/normalize.ipp)
--   DotSegments     remove_dot_segments (detail/impl/remove_dot_segments.ipp)
--   Url             the table, its accessors, split, adjust, collapse (detail/impl/url_impl.ipp)
--   Url/Apply       the apply_ functions, by which the rules fill the table (detail/impl/url_impl.ipp)
--   Url/Resize      resize_impl and shrink_impl (impl/url_base.ipp)
--   Url/Fragment, Url/Userinfo, Url/Authority
--                   the setters of impl/url_base.ipp by part, with detail/print.hpp for the port
--   Url/SchemePart  set_scheme, remove_scheme, remove_origin (impl/url_base.ipp)
--   Url/Path        path_prefix, clean_path (detail/path.hpp), segment (impl/url_base.ipp)
--   Url/Iter        any_query_iter and any_path_iter (detail/any_query_iter.hpp, any_path_iter.hpp)
--   Url/Path/Edit   edit_segments, set_path, set_encoded_path, set_path_absolute (impl/url_base.ipp),
--                   with the iterators of a path (detail/impl/any_path_iter.ipp)
--   Url/Query       param, edit_params, set_query, set_encoded_query (impl/url_base.ipp), with the
--                   iterators of a query (detail/any_query_iter.hpp, detail/impl/any_query_iter.ipp)
--   Url/View        the accessors (url_view_base.hpp, impl/url_view_base.ipp)
--   Url/Host        set_host, set_encoded_host, set_encoded_authority, and the other setters of parsed
--                   strings (impl/url_base.ipp)
--   Url/FromView    the setters that take a pct_encoded_view, of the user info and the fragment
--   Url/Segments    segments_encoded (impl/segments_encoded.hpp and .ipp), one element at a time
--   Url/Params      params_encoded (impl/params_encoded.hpp and .ipp), one element at a time
--   Url/Normalize   normalize_octets_impl, decoded_to_lower_impl, normalize_authority and the others but
--                   normalize_path (impl/url_base.ipp)
--   Tests           runs on concrete inputs, and the theorems at such inputs
-- The children of these that are not named hold proofs: Pct/Bounds, Exact, Total, Grammar and
-- RoundTrip on percent-encoding; Url/Frame, Parts, Replace and Shared on what an edit keeps;
-- Url/SchemePart/Dots, Front and Remove on a "./" that comes and goes; Url/Iter/Measured, Url/Resized,
-- Url/Query/Set and Url/Path/Edit/Clean, Prefix and Set on what is measured, moved and copied;
-- Url/Userinfo/Read, Port/RoundTrip, Ipv4/Bounds and Compare/Zero; the modules called Yields on the
-- texts that rules take, Ends on the ends of their loops, Rfc/PctEncoded/Complete and Rfc/Host/Ipv4
-- on what they must take; Url/Apply/Laid and Parts on a table that grows, and Rfc/Uri/Authority,
-- AuthorityRule, Hier, Filled, Construct, Rules, Succeeds and Undefined and Rfc/Parse/Valid and
-- Undefined on whole URLs; Url/Normalize/Octets, with Rounds and Whole, on the loop that decodes;
-- DotSegments/Bounds and First; Ipv6/Bounds and Words; Rfc/Ipv6/Forms, a grammar of IPv6 addresses with
-- their bytes, and Words, Fill and Rounds behind it; the modules called Laws on the operations of
-- their parent.
--
-- Characters are numbers below 256. Sizes and offsets are 64-bit numbers whose wrap-around is written
-- out. A pair of pointers into an output is the room between them, with the list of the bytes that
-- are written. A function that throws or returns an error code returns `Result`. `reserve` throws
-- above `max_size`; the bytes that it adds are unspecified until they are written.
-- Loops recurse on their input; the digits of a port are printed with fuel 5, and a 16-bit number
-- has no more digits. The loop of an encoded comparison and the reading of a `pct_encoded_view` have
-- the size of their string as fuel, and the loop of a range rule that of its input; each round takes
-- a character at least. The two loops of `remove_dot_segments` have the size of the input, for the
-- same reason; those of `edit_params` and `edit_segments` that measure have the size of the string
-- and one, and those that print an IPv6 address the number of its bytes. The loop that parses one
-- recurses on the number of words it needs.
-- A rule is a function from the input to an error or to a value and the rest of the input; a tuple rule
-- is a chain of rules. The error `undefined` stands where the source reads what is not there,
-- `unwritten` where a code depends on bytes that were never written.
--
-- A string that is set does not alias the buffer: the source copies it first where it does.
-- Not modelled: allocation, copied and recycled strings, streams and error messages; not yet: the
-- decoded containers and the views of segments and parameters, the normalization of paths, and reference
-- resolution.
pub mod Base
pub mod Chars
pub mod Pct
pub mod Scheme
pub mod Grammar
pub mod Range
pub mod Unsigned
pub mod Ipv4
pub mod Ipv6
pub mod Port
pub mod Compare
pub mod DotSegments
pub mod Rfc
pub mod Url
mod Tests
