-- ===== src/Rfc/Query.antt =====
-- Rules for queries and fragments: rfc/impl/query_rule.ipp and rfc/detail/fragment_rule.hpp.
pub mod Ends
pub mod Yields
use boost_url.Base.{Bool, true, false, not, ◌&&◌, ◌||◌, Option, [], ◌∷◌, ◌==◌, if◌then◌else◌, ok}
use boost_url.Chars.{CharSet, pchars, fragment_chars}
use boost_url.Grammar.{Rule, delim_rule, ◌>>=◌, ◌>>◌, give, optional_rule}
use boost_url.Pct.View.{PctEncodedView}
use boost_url.Range.{no_limit, range_rule, Range}
use boost_url.Rfc.PctEncoded.{pct_encoded_rule}
use boost_url.Rfc.Userinfo.{no_view}

unfoldable pub key_chars : CharSet
unfolding pchars
key_chars c =
    (pchars c || c == b'/' || c == b'?' || c == b'[' || c == b']')
    && not (c == b'&')
    && not (c == b'=')

unfoldable pub value_chars : CharSet
unfolding pchars
value_chars c = (pchars c || c == b'/' || c == b'?') && not (c == b'&')

-- `query_param_view`
pub record QueryParam : Type 0 where
  pub key : PctEncodedView
  pub value : PctEncodedView
  pub has_value : Bool

abbrev pub no_value : PctEncodedView → QueryParam
no_value key = record { key = key; value = no_view; has_value = false }

-- From the '=' on.
unfoldable pub query_value_rule : PctEncodedView → Rule QueryParam
unfolding pct_encoded_rule value_chars
query_value_rule key [] = ok (no_value key, [])
query_value_rule key (c ∷ s) =
    let with_value : Rule QueryParam = do
      value ← pct_encoded_rule value_chars
      give (record { key = key; value = value; has_value = true })
    in if c == b'=' then with_value s else ok (no_value key, c ∷ s)

unfoldable pub query_param_rule : Rule QueryParam
unfolding pct_encoded_rule key_chars query_value_rule
query_param_rule = pct_encoded_rule key_chars >>= query_value_rule

unfoldable pub query_rule : Rule Range
unfolding range_rule delim_rule query_param_rule
query_rule = range_rule query_param_rule (delim_rule b'&' >> query_param_rule) 0 no_limit

-- `[ "?" query ]`
unfoldable pub query_part_rule : Rule (Option Range)
unfolding optional_rule delim_rule query_rule
query_part_rule = optional_rule (delim_rule b'?' >> query_rule)

unfoldable pub fragment_rule : Rule PctEncodedView
unfolding pct_encoded_rule fragment_chars
fragment_rule = pct_encoded_rule fragment_chars

unfoldable pub fragment_part_rule : Rule (Option PctEncodedView)
unfolding optional_rule delim_rule fragment_rule
fragment_part_rule = optional_rule (delim_rule b'#' >> fragment_rule)
