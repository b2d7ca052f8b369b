-- ===== src/Rfc/Parse.antt =====
-- `uri_reference_rule`, with the `variant_rule` of two rules, and the functions that parse a whole string:
-- rfc/impl/uri_reference_rule.ipp, grammar/impl/variant_rule.hpp, impl/url_view.ipp and
-- impl/authority_view.ipp.
pub mod Valid
pub mod Undefined
use boost_url.Base.{
  Bool, true, false, ltb, if◌then◌else◌, Bytes, length, Error, Result, mismatch, length_error,
  undefined, unwritten, err, ok,
}
use boost_url.Grammar.{Rule, parse_all}
use boost_url.Rfc.Uri.{
  authority_rule, uri_rule, absolute_uri_rule, relative_ref_rule, origin_form_rule,
}
use boost_url.Url.{max_size, Url}

-- The code when no rule matches; `undefined` and `unwritten` are no codes and stay.
abbrev pub no_match : Error → Error
no_match undefined = undefined
no_match unwritten = unwritten
no_match _ = mismatch

-- No code to go on from.
abbrev pub is_lost : Error → Bool
is_lost undefined = true
is_lost unwritten = true
is_lost _ = false

-- `variant_rule(r0, r1)`, for rules with one type of value: which of them it was is not kept.
unfoldable pub variant_rule {ℓ} : {T : Type ℓ} → Rule T → Rule T → Rule T
variant_rule r0 r1 s = elim (r0 s) [
  | ok found ↦ ok found
  | err first ↦
      if is_lost first
      then err first
      else elim (r1 s) [ ok found ↦ ok found | err why ↦ err (no_match why) ]
]

unfoldable pub uri_reference_rule : Rule Url
unfolding variant_rule uri_rule relative_ref_rule
uri_reference_rule = variant_rule uri_rule relative_ref_rule

-- `if(s.size() > max_size()) throw_length_error`, then `grammar::parse(s, rule)`.
abbrev pub parse_sized : Rule Url → Bytes → Result Url
parse_sized rule s = if ltb max_size (length s) then err length_error else parse_all rule s

unfoldable pub parse_absolute_uri : Bytes → Result Url
unfolding parse_all absolute_uri_rule
parse_absolute_uri = parse_sized absolute_uri_rule

unfoldable pub parse_origin_form : Bytes → Result Url
unfolding parse_all origin_form_rule
parse_origin_form = parse_sized origin_form_rule

unfoldable pub parse_relative_ref : Bytes → Result Url
unfolding parse_all relative_ref_rule
parse_relative_ref = parse_sized relative_ref_rule

unfoldable pub parse_uri : Bytes → Result Url
unfolding parse_all uri_rule
parse_uri = parse_sized uri_rule

unfoldable pub parse_uri_reference : Bytes → Result Url
unfolding parse_all uri_reference_rule
parse_uri_reference = parse_sized uri_reference_rule

unfoldable pub parse_authority : Bytes → Result Url
unfolding parse_all authority_rule
parse_authority = parse_sized authority_rule
