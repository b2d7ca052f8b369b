-- ===== src/Url/Host.antt =====
-- The host setters and the setters of parsed strings of impl/url_base.ipp. `value()` throws the error of a
-- string that does not parse.
use boost_url.Base.{
  ℕ, ◌+◌, not, ◌&&◌, none, some, [], ◌∷◌, ◌++◌, ltb, if◌then◌else◌, Bytes, codes, length, ◌>>=◌,
  Result, undefined, err, ok,
}
use boost_url.Base.Slices.{write}
use boost_url.Chars.{host_chars}
use boost_url.Grammar.{parse_all}
use boost_url.Ipv4.{to_bytes, print_impl, parse_ipv4_address}
use boost_url.Ipv6.{ipv6_to_buffer}
use boost_url.Pct.Encode.{pct_encode_bytes}
use boost_url.Pct.View.{contents, PctEncodedView}
use boost_url.Port.{port_rule}
use boost_url.Rfc.Host.{host_rule}
use boost_url.Rfc.Query.{fragment_rule}
use boost_url.Rfc.Uri.{authority_rule}
use boost_url.Rfc.Userinfo.{userinfo_rule}
use boost_url.Url.{
  id_user, id_pass, id_host, id_port, id_path, id_query, id_frag, id_end, offset, size, len, adjust,
  split, put, set_decoded, HostType, Url, name,
}
use boost_url.Url.Apply.{apply_authority}
use boost_url.Url.Authority.{set_host_impl, set_port_impl}
use boost_url.Url.Fragment.{encode_opts, put_encoded, set_fragment_impl}
use boost_url.Url.Resize.{resize_range}
use boost_url.Url.Userinfo.{set_userinfo_impl}
use boost_url.Url.View.{is_path_absolute}

-- Behind `set_host_impl`: the text at the host's offset.
abbrev with_host : HostType → ℕ → Bytes → Url → Url
with_host type size text u = record (set_decoded id_host size (put (offset u id_host) text u)) {
  host_type_ = type;
}

-- `memcpy` to `ip_addr_`
abbrev put_addr : Bytes → Url → Url
put_addr bytes u = record u { ip_addr_ = write u.ip_addr_ 0 bytes }

-- `set_host(ipv4_address)`
unfoldable pub set_host_ipv4 : ℕ → Url → Result Url
unfolding set_host_impl print_impl to_bytes len
set_host_ipv4 addr u = do
  let s = print_impl addr
  v ← set_host_impl (length s) u
  let bytes = to_bytes addr
  ok (
      put_addr (bytes.b0 ∷ bytes.b1 ∷ bytes.b2 ∷ bytes.b3 ∷ [])
        (with_host HostType.ipv4 (len v id_host) s v))

-- `set_host(ipv6_address)`, in brackets.
unfoldable pub set_host_ipv6 : Bytes → Url → Result Url
unfolding set_host_impl ipv6_to_buffer len
set_host_ipv6 addr u = do
  printed ← ipv6_to_buffer 49 addr
  elim printed [
    | none ↦ err undefined
    | some s ↦ do
      v ← set_host_impl (length s + 2) u
      ok (put_addr addr (with_host HostType.ipv6 (len v id_host) (codes "[" ++ (s ++ codes "]")) v))
  ]

-- A name that is encoded; `pct_encode` gets the room to the path.
unfoldable pub set_host_name : Bytes → Url → Result Url
unfolding set_host_impl
set_host_name s u = do
  v ← set_host_impl (pct_encode_bytes host_chars encode_opts s) u
  ok
      (record (set_decoded id_host (length s)
        (put_encoded (offset v id_host) (offset v id_path) s host_chars v)) {
          host_type_ = HostType.name;
        })

-- `set_host(string_view)`
unfoldable pub set_host : Bytes → Url → Result Url
unfolding parse_ipv4_address set_host_ipv4 set_host_name
set_host s u = elim (parse_ipv4_address s) [
  | ok addr ↦ set_host_ipv4 addr u
  | err _ ↦ set_host_name s u
]

-- `set_host(pct_encoded_view)`: an address is looked for in the encoded characters.
unfoldable pub set_host_view : PctEncodedView → Url → Result Url
unfolding parse_ipv4_address set_host_ipv4 set_host_name contents
set_host_view s u = elim (parse_ipv4_address s.encoded) [
  | ok addr ↦ set_host_ipv4 addr u
  | err _ ↦ elim (contents s) [ none ↦ err undefined | some t ↦ set_host_name t u ]
]

unfoldable pub set_encoded_host : Bytes → Url → Result Url
unfolding host_rule parse_all set_host_impl
set_encoded_host s u = do
  t ← parse_all host_rule s
  v ← set_host_impl (length t.text) u
  let size : ℕ = elim t.host_type [ name ↦ t.name.dn_ | _ ↦ length t.text ]
  ok (put_addr t.addr (with_host t.host_type size t.text v))

-- `set_port(string_view)`
unfoldable pub set_port_string : Bytes → Url → Result Url
unfolding port_rule parse_all set_port_impl
set_port_string s u = do
  t ← parse_all port_rule s
  v ← set_port_impl (length t.str) u
  ok (record (put (offset v id_port + 1) t.str v) {
    port_number_ = elim t.number [ none ↦ 0 | some n ↦ n ];
  })

unfoldable pub set_encoded_fragment : Bytes → Url → Result Url
unfolding fragment_rule parse_all set_fragment_impl
set_encoded_fragment s u = do
  t ← parse_all fragment_rule s
  v ← set_fragment_impl (length s) u
  ok (put (offset v id_frag + 1) s (set_decoded id_frag t.dn_ v))

unfoldable pub set_encoded_userinfo : Bytes → Url → Result Url
unfolding userinfo_rule parse_all set_userinfo_impl split
set_encoded_userinfo s u = do
  t ← parse_all userinfo_rule s
  v ← set_userinfo_impl (length s) u
  let w = put (offset v id_user + 2) s (split id_user (2 + length t.user.encoded) v)
  ok (
      set_decoded id_pass (if t.has_password then t.password.dn_ else 0)
        (set_decoded id_user t.user.dn_ w))

-- A path with no '/' in front gets one behind the authority.
unfoldable pub set_encoded_authority : Bytes → Url → Result Url
unfolding authority_rule parse_all is_path_absolute resize_range apply_authority adjust len
set_encoded_authority s u = do
  t ← parse_all authority_rule s
  let need_slash = not (is_path_absolute u) && ltb 0 (len u id_path)
  let slash = if need_slash then codes "/" else []
  v ← resize_range id_user id_path (length s + 2 + length slash) u
  let w = apply_authority t (put (offset v id_user) (codes "//" ++ (s ++ slash)) v)
  ok (if need_slash then record w { offset_ = adjust id_query id_end 1 w.offset_ } else w)
