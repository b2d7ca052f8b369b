-- ===== src/Rfc/Path.antt =====
-- Rules for paths: rfc/detail/path_rules.hpp and rfc/detail/impl/path_rules.ipp.
pub mod Ends
pub mod Yields
use boost_url.Base.{not, ◌&&◌, [], ◌∷◌, ◌==◌, if◌then◌else◌, mismatch, err, ok}
use boost_url.Chars.{CharSet, pchars}
use boost_url.Grammar.{Rule, delim_rule, ◌>>◌, not_empty_rule}
use boost_url.Pct.View.{PctEncodedView}
use boost_url.Range.{no_limit, range_rule, Range}
use boost_url.Rfc.PctEncoded.{pct_encoded_rule}
use boost_url.Rfc.Userinfo.{no_view}

unfoldable pub segment_rule : Rule PctEncodedView
unfolding pct_encoded_rule
segment_rule = pct_encoded_rule pchars

unfoldable pub segment_nz_rule : Rule PctEncodedView
unfolding pct_encoded_rule not_empty_rule
segment_nz_rule = not_empty_rule (pct_encoded_rule pchars)

unfoldable pub no_colon_chars : CharSet
unfolding pchars
no_colon_chars c = pchars c && not (c == b':')

unfoldable pub segment_nz_nc_rule : Rule PctEncodedView
unfolding pct_encoded_rule not_empty_rule no_colon_chars
segment_nz_nc_rule = not_empty_rule (pct_encoded_rule no_colon_chars)

unfoldable pub slash_segment_rule : Rule PctEncodedView
unfolding pct_encoded_rule delim_rule
slash_segment_rule = delim_rule b'/' >> pct_encoded_rule pchars

unfoldable pub segment_ns_rule : Rule PctEncodedView
unfolding segment_rule
segment_ns_rule [] = ok (no_view, [])
segment_ns_rule (c ∷ s) = if c == b'/' then err mismatch else segment_rule (c ∷ s)

unfoldable pub path_abempty_rule : Rule Range
unfolding range_rule delim_rule segment_rule
path_abempty_rule =
    range_rule (delim_rule b'/' >> segment_rule) (delim_rule b'/' >> segment_rule) 0 no_limit

unfoldable pub path_absolute_rule : Rule Range
unfolding range_rule delim_rule segment_ns_rule slash_segment_rule
path_absolute_rule = range_rule (delim_rule b'/' >> segment_ns_rule) slash_segment_rule 1 no_limit

unfoldable pub path_noscheme_rule : Rule Range
unfolding range_rule segment_nz_nc_rule slash_segment_rule
path_noscheme_rule = range_rule segment_nz_nc_rule slash_segment_rule 1 no_limit

unfoldable pub path_rootless_rule : Rule Range
unfolding range_rule segment_nz_rule slash_segment_rule
path_rootless_rule = range_rule segment_nz_rule slash_segment_rule 1 no_limit
