-- ===== src/Url/Apply.antt =====
-- How the rules fill the table of a URL, from empty parts: include/boost/url/detail/impl/url_impl.ipp
-- and `path_segments` of detail/path.hpp.
pub mod Laid
pub mod Parts
use boost_url.Base.{
  ℕ, ◌+◌, ◌-◌, ◌&&◌, Option, none, some, [], ◌∷◌, ◌==◌, if◌then◌else◌, Bytes, length, replicate,
}
use boost_url.Pct.Decode.{pct_decode_bytes_unchecked}
use boost_url.Pct.View.{PctEncodedView}
use boost_url.Scheme.{string_to_scheme, Scheme}
use boost_url.Url.{
  id_scheme, id_user, id_pass, id_host, id_port, id_path, id_query, id_frag, len, set_size,
  set_decoded, HostType, Url,
}
use boost_url.Url.View.{user}

-- A new `url_impl`. The model has no `is_authority`: it is true where `authority_rule` makes the
-- table, and false elsewhere.
abbrev pub new_impl : Url
new_impl = record {
  chars = [];
  offset_ = λ _. 0;
  decoded_ = λ _. 0;
  nseg_ = 0;
  nparam_ = 0;
  ip_addr_ = replicate 16 0;
  port_number_ = 0;
  host_type_ = HostType.none;
  scheme_ = Scheme.none;
}

unfoldable pub path_segments : Bytes → ℕ → ℕ
path_segments [] nseg = 0
path_segments (c ∷ []) nseg = if c == b'/' then 0 else 1
path_segments (c ∷ d ∷ []) nseg =
    if c == b'/' then nseg else if c == b'.' && d == b'/' then nseg - 1 else nseg
path_segments (c ∷ d ∷ e ∷ s) nseg =
    if c == b'/'
    then (if d == b'.' && e == b'/' then nseg - 1 else nseg)
    else if c == b'.' && d == b'/'
    then nseg - 1
    else nseg

unfoldable pub apply_scheme : Bytes → Url → Url
unfolding set_size string_to_scheme
apply_scheme s u = set_size id_scheme (length s + 1) (record u { scheme_ = string_to_scheme s })

-- `pass` is null where there is no password.
unfoldable pub apply_userinfo : PctEncodedView → Option PctEncodedView → Url → Url
unfolding set_size
apply_userinfo user pass u =
    let named = set_decoded id_user user.dn_ (set_size id_user (length user.encoded) u) in
    elim pass [
      | some p ↦ set_decoded id_pass p.dn_ (set_size id_pass (length p.encoded + 2) named)
      | none ↦ set_size id_pass 1 named
    ]

unfoldable pub apply_host : HostType → Bytes → Bytes → PctEncodedView → Url → Url
unfolding set_size
apply_host ht s addr name_view u =
    let sized = set_size id_host (length s) (record u { host_type_ = ht }) in
    let decoded : ℕ = elim ht [ HostType.name ↦ name_view.dn_ | _ ↦ length s ] in
    record (set_decoded id_host decoded sized) { ip_addr_ = addr }

unfoldable pub apply_port : Bytes → ℕ → Url → Url
unfolding set_size
apply_port s pn u = set_size id_port (1 + length s) (record u { port_number_ = pn })

-- `a` has no leading "//" in its user part.
unfoldable pub apply_authority : Url → Url → Url
unfolding set_size len
apply_authority a u =
    let user = set_size id_pass (len a id_pass) (set_size id_user (len a id_user + 2) u) in
    let named =
      set_decoded id_pass (a.decoded_ id_pass) (set_decoded id_user (a.decoded_ id_user) user) in
    let placed = set_size id_port (len a id_port) (
      set_size id_host (len a id_host)
        (record named { host_type_ = a.host_type_; port_number_ = a.port_number_ })) in
    set_decoded id_host (a.decoded_ id_host) (record placed { ip_addr_ = a.ip_addr_ })

unfoldable pub apply_path : Bytes → ℕ → Url → Url
unfolding set_size pct_decode_bytes_unchecked path_segments
apply_path s nseg u =
    record (set_decoded id_path (pct_decode_bytes_unchecked s) (set_size id_path (length s) u)) {
      nseg_ = path_segments s nseg;
    }

unfoldable pub apply_query : Bytes → ℕ → Url → Url
unfolding set_size pct_decode_bytes_unchecked
apply_query s n u =
    set_decoded id_query (pct_decode_bytes_unchecked s)
      (set_size id_query (1 + length s) (record u { nparam_ = n }))

unfoldable pub apply_frag : PctEncodedView → Url → Url
unfolding set_size
apply_frag s u = set_decoded id_frag s.dn_ (set_size id_frag (length s.encoded + 1) u)
