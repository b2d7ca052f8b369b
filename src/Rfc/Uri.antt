-- ===== src/Rfc/Uri.antt =====
-- The rules that make URLs: rfc/impl/{authority_rule,uri_rule,relative_ref_rule,absolute_uri_rule,
-- origin_form_rule}.ipp and rfc/detail/impl/{hier_part_rule,relative_part_rule}.ipp.
pub mod Authority
pub mod Undefined
pub mod Succeeds
pub mod AuthorityRule
pub mod Hier
pub mod Filled
pub mod Construct
pub mod Rules
pub mod Yields
use boost_url.Base.{
  ℕ, not, Option, none, some, [], ◌∷◌, ◌==◌, if◌then◌else◌, take, undefined, err, ok,
}
use boost_url.Grammar.{Rule, delim_rule, ◌>>=◌, ◌>>◌, give, optional_rule}
use boost_url.Pct.View.{PctEncodedView}
use boost_url.Port.{port_part_rule, PortPart}
use boost_url.Range.{no_limit, range_rule, Range}
use boost_url.Rfc.Host.{host_rule}
use boost_url.Rfc.Path.{
  segment_rule, path_abempty_rule, path_absolute_rule, path_noscheme_rule, path_rootless_rule,
}
use boost_url.Rfc.Query.{query_part_rule, fragment_part_rule}
use boost_url.Rfc.Userinfo.{scheme_rule, userinfo_rule, SchemeValue, UserinfoValue}
use boost_url.Url.{size, Url}
use boost_url.Url.Apply.{
  new_impl, apply_scheme, apply_userinfo, apply_host, apply_port, apply_authority, apply_path,
  apply_query, apply_frag,
}

-- `u.cs_ = it` in front of the parts, and `construct` behind them: the characters of the URL are
-- those from `it` on, as many as the table says.
abbrev pub made : Rule Url → Rule Url
made r s = elim (r s) [
  | err why ↦ err why
  | ok (u, rest) ↦ ok (record u { chars = take (size u) s }, rest)
]

-- `[ userinfo "@" ]`
unfoldable pub userinfo_part_rule : Rule (Option UserinfoValue)
unfolding optional_rule userinfo_rule delim_rule
userinfo_part_rule = optional_rule (userinfo_rule >>= λ v. delim_rule b'@' >> give v)

unfoldable pub with_userinfo : Option UserinfoValue → Url → Url
unfolding apply_userinfo
with_userinfo none u = u
with_userinfo (some v) u =
    apply_userinfo v.user (if v.has_password then some v.password else none) u

unfoldable pub with_port : PortPart → Url → Url
unfolding apply_port
with_port v u =
    let number : ℕ = elim v.port_number [ none ↦ 0 | some n ↦ n ] in
    if v.has_port then apply_port v.port number u else u

unfoldable pub authority_parts : Rule Url
unfolding userinfo_part_rule with_userinfo host_rule apply_host port_part_rule with_port
authority_parts = do
  v ← userinfo_part_rule
  h ← host_rule
  p ← port_part_rule
  give (with_port p (apply_host h.host_type h.text h.addr h.name (with_userinfo v new_impl)))

unfoldable pub authority_rule : Rule Url
unfolding authority_parts
authority_rule = made authority_parts

-- `hier_part_rule_t::value_type`, and that of `relative_part_rule_t`; `none` stands for
-- `has_authority == false`.
pub record HierPart : Type 0 where
  pub authority : Option Url
  pub path : Range

abbrev pub no_path : Range
no_path = record { string = []; size = 0 }

-- Behind the "//".
unfoldable pub authority_path_rule : Rule HierPart
unfolding authority_rule path_abempty_rule
authority_path_rule = do
  a ← authority_rule
  path ← path_abempty_rule
  give (record { authority = some a; path = path })

unfoldable pub absolute_part : Rule HierPart
unfolding path_absolute_rule
absolute_part = path_absolute_rule >>= λ path. give (record { authority = none; path = path })

-- A path rule that may fail: the path is empty then.
unfoldable pub path_or_empty : Rule Range → Rule HierPart
path_or_empty r s = elim (r s) [
  | err _ ↦ ok (record { authority = none; path = no_path }, s)
  | ok (path, rest) ↦ ok (record { authority = none; path = path }, rest)
]

unfoldable pub hier_part_rule : Rule HierPart
unfolding path_or_empty path_rootless_rule absolute_part authority_path_rule
hier_part_rule [] = ok (record { authority = none; path = no_path }, [])
hier_part_rule (c ∷ []) =
    if not (c == b'/') then path_or_empty path_rootless_rule (c ∷ []) else absolute_part (c ∷ [])
hier_part_rule (c ∷ d ∷ s) =
    if not (c == b'/')
    then path_or_empty path_rootless_rule (c ∷ d ∷ s)
    else if not (d == b'/')
    then absolute_part (c ∷ d ∷ s)
    else authority_path_rule s

-- The result of `path_absolute_rule` is not tested.
unfoldable pub untested_absolute_part : Rule HierPart
unfolding path_absolute_rule
untested_absolute_part s = elim (path_absolute_rule s) [
  | err _ ↦ err undefined
  | ok (path, rest) ↦ ok (record { authority = none; path = path }, rest)
]

unfoldable pub relative_part_rule : Rule HierPart
unfolding path_or_empty path_noscheme_rule untested_absolute_part authority_path_rule
relative_part_rule [] = ok (record { authority = none; path = no_path }, [])
relative_part_rule (c ∷ []) =
    if not (c == b'/')
    then path_or_empty path_noscheme_rule (c ∷ [])
    else untested_absolute_part (c ∷ [])
relative_part_rule (c ∷ d ∷ s) =
    if not (c == b'/')
    then path_or_empty path_noscheme_rule (c ∷ d ∷ s)
    else if not (d == b'/')
    then untested_absolute_part (c ∷ d ∷ s)
    else authority_path_rule s

-- What the rules do with the parts that they read.
unfoldable pub with_hier_part : HierPart → Url → Url
unfolding apply_path apply_authority
with_hier_part h u =
    apply_path h.path.string h.path.size
      (elim h.authority [ none ↦ u | some a ↦ apply_authority a u ])

unfoldable pub with_query : Option Range → Url → Url
unfolding apply_query
with_query none u = u
with_query (some q) u = apply_query q.string q.size u

unfoldable pub with_frag : Option PctEncodedView → Url → Url
unfolding apply_frag
with_frag none u = u
with_frag (some f) u = apply_frag f u

-- `scheme ":"`
unfoldable pub scheme_part_rule : Rule SchemeValue
unfolding scheme_rule delim_rule
scheme_part_rule = scheme_rule >>= λ v. delim_rule b':' >> give v

unfoldable pub uri_parts : Rule Url
unfolding scheme_part_rule hier_part_rule query_part_rule fragment_part_rule apply_scheme
    with_hier_part with_query with_frag
uri_parts = do
  v ← scheme_part_rule
  h ← hier_part_rule
  q ← query_part_rule
  f ← fragment_part_rule
  give (with_frag f (with_query q (with_hier_part h (apply_scheme v.scheme new_impl))))

unfoldable pub uri_rule : Rule Url
unfolding uri_parts
uri_rule = made uri_parts

unfoldable pub absolute_uri_parts : Rule Url
unfolding scheme_part_rule hier_part_rule query_part_rule apply_scheme with_hier_part with_query
absolute_uri_parts = do
  v ← scheme_part_rule
  h ← hier_part_rule
  q ← query_part_rule
  give (with_query q (with_hier_part h (apply_scheme v.scheme new_impl)))

unfoldable pub absolute_uri_rule : Rule Url
unfolding absolute_uri_parts
absolute_uri_rule = made absolute_uri_parts

unfoldable pub relative_ref_parts : Rule Url
unfolding relative_part_rule query_part_rule fragment_part_rule with_hier_part with_query with_frag
relative_ref_parts = do
  h ← relative_part_rule
  q ← query_part_rule
  f ← fragment_part_rule
  give (with_frag f (with_query q (with_hier_part h new_impl)))

unfoldable pub relative_ref_rule : Rule Url
unfolding relative_ref_parts
relative_ref_rule = made relative_ref_parts

-- `1*( "/" segment )`
unfoldable pub origin_path_rule : Rule Range
unfolding range_rule delim_rule segment_rule
origin_path_rule =
    range_rule (delim_rule b'/' >> segment_rule) (delim_rule b'/' >> segment_rule) 1 no_limit

unfoldable pub origin_form_parts : Rule Url
unfolding origin_path_rule query_part_rule apply_path with_query
origin_form_parts = do
  p ← origin_path_rule
  q ← query_part_rule
  give (with_query q (apply_path p.string p.size new_impl))

unfoldable pub origin_form_rule : Rule Url
unfolding origin_form_parts
origin_form_rule = made origin_form_parts
