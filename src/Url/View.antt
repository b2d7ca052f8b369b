-- ===== src/Url/View.antt =====
-- The accessors of url_view_base.hpp and impl/url_view_base.ipp. Their assertions are not part of
-- the model.
pub mod Laws
use boost_url.Base.{
  ℕ, ◌-◌, Bool, true, false, not, ◌&&◌, [], ◌∷◌, ltb, leb, ◌==◌, if◌then◌else◌, Bytes, length, take,
  drop,
}
use boost_url.Pct.Decode.{PctDecodeOpts}
use boost_url.Pct.View.{construct, PctEncodedView}
use boost_url.Url.{
  id_scheme, id_user, id_pass, id_host, id_port, id_path, id_query, id_frag, pos_add, pos_sub,
  offset, len, get, get_range, HostType, Url, name, ipv4, ipv6, ipvfuture,
}

abbrev drop_last : Bytes → Bytes
drop_last s = take (length s - 1) s

abbrev starts_with_slash : Bytes → Bool
starts_with_slash [] = false
starts_with_slash (c ∷ s) = c == b'/'

-- The options of the accessors: '+' is a space in the query only.
abbrev pub view_opts : Bool → PctDecodeOpts
view_opts plus = record { allow_null = true; plus_to_space = plus; non_normal_is_error = false }

unfoldable pub has_scheme : Url → Bool
has_scheme u = not (len u id_scheme == 0)

unfoldable pub scheme : Url → Bytes
scheme u = drop_last (get u id_scheme)

unfoldable pub has_authority : Url → Bool
has_authority u = ltb 0 (len u id_user)

unfoldable pub encoded_authority : Url → Bytes
encoded_authority u = drop 2 (get_range u id_user id_path)

unfoldable pub has_userinfo : Url → Bool
has_userinfo u = not (len u id_pass == 0)

unfoldable pub encoded_userinfo : Url → Bytes
encoded_userinfo u = drop_last (drop 2 (get_range u id_user id_host))

unfoldable pub encoded_user : Url → Bytes
encoded_user u = drop 2 (get u id_user)

unfoldable pub user : Url → PctEncodedView
unfolding encoded_user
user u = construct (encoded_user u) (u.decoded_ id_user) (view_opts false)

unfoldable pub has_password : Url → Bool
has_password u = ltb 1 (len u id_pass)

unfoldable pub encoded_password : Url → Bytes
encoded_password u =
    let s = get u id_pass in if leb (length s) 1 then [] else take (length s - 2) (drop 1 s)

unfoldable pub password : Url → PctEncodedView
unfolding encoded_password
password u = construct (encoded_password u) (u.decoded_ id_pass) (view_opts false)

unfoldable pub userinfo : Url → PctEncodedView
unfolding encoded_userinfo has_password
userinfo u =
    let colon = if has_password u then 1 else 0 in
    construct (encoded_userinfo u)
      (pos_add (pos_add (u.decoded_ id_user) colon) (u.decoded_ id_pass)) (view_opts false)

unfoldable pub encoded_host : Url → Bytes
encoded_host u = get u id_host

unfoldable pub host : Url → PctEncodedView
unfolding encoded_host
host u = construct (encoded_host u) (u.decoded_ id_host) (view_opts false)

unfoldable pub encoded_hostname : Url → Bytes
encoded_hostname u = elim u.host_type_ [
  | HostType.none ↦ get u id_host
  | name ↦ get u id_host
  | ipv4 ↦ get u id_host
  | ipv6 ↦ drop_last (drop 1 (get u id_host))
  | ipvfuture ↦ drop_last (drop 1 (get u id_host))
]

abbrev hostname_size : Url → ℕ
hostname_size u = elim u.host_type_ [
  | HostType.none ↦ 0
  | name ↦ u.decoded_ id_host
  | ipv4 ↦ u.decoded_ id_host
  | ipv6 ↦ pos_sub (u.decoded_ id_host) 2
  | ipvfuture ↦ pos_sub (u.decoded_ id_host) 2
]

unfoldable pub hostname : Url → PctEncodedView
unfolding encoded_hostname
hostname u = construct (encoded_hostname u) (hostname_size u) (view_opts false)

unfoldable pub ipvfuture_of : Url → Bytes
ipvfuture_of u = elim u.host_type_ [ ipvfuture ↦ drop_last (drop 1 (get u id_host)) | _ ↦ [] ]

unfoldable pub has_port : Url → Bool
has_port u = not (len u id_port == 0)

unfoldable pub port : Url → Bytes
port u = drop 1 (get u id_port)

unfoldable pub port_number : Url → ℕ
port_number u = u.port_number_

unfoldable pub encoded_host_and_port : Url → Bytes
encoded_host_and_port u = get_range u id_host id_path

unfoldable pub encoded_origin : Url → Bytes
encoded_origin u = if ltb (len u id_user) 2 then [] else get_range u id_scheme id_path

unfoldable pub is_path_absolute : Url → Bool
is_path_absolute u = ltb 0 (len u id_path) && starts_with_slash (drop (offset u id_path) u.chars)

unfoldable pub encoded_path : Url → Bytes
encoded_path u = get u id_path

unfoldable pub path : Url → PctEncodedView
unfolding encoded_path
path u = construct (encoded_path u) (u.decoded_ id_path) (view_opts false)

unfoldable pub has_query : Url → Bool
has_query u = not (len u id_query == 0)

unfoldable pub encoded_query : Url → Bytes
encoded_query u = drop 1 (get u id_query)

unfoldable pub query : Url → PctEncodedView
unfolding encoded_query
query u = construct (encoded_query u) (u.decoded_ id_query) (view_opts true)

unfoldable pub has_fragment : Url → Bool
has_fragment u = not (len u id_frag == 0)

unfoldable pub encoded_fragment : Url → Bytes
encoded_fragment u = drop 1 (get u id_frag)

unfoldable pub fragment : Url → PctEncodedView
unfolding encoded_fragment
fragment u = construct (encoded_fragment u) (u.decoded_ id_frag) (view_opts false)
