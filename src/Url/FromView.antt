-- ===== src/Url/FromView.antt =====
-- The setters of impl/url_base.ipp that take a `pct_encoded_view` and encode its characters: those of the
-- user info and of the fragment. The stored size is that of the view.
use boost_url.Base.{ℕ, ◌+◌, ◌-◌, none, some, length, ◌>>=◌, Result, undefined, err, ok}
use boost_url.Chars.{userinfo_chars}
use boost_url.Pct.Encode.{pct_encode_bytes}
use boost_url.Pct.View.{contents, PctEncodedView}
use boost_url.Url.{id_user, id_pass, id_host, id_frag, offset, get_range, set_decoded, Url}
use boost_url.Url.Fragment.{encode_opts, put_encoded, set_fragment}
use boost_url.Url.Userinfo.{
  set_user, set_password, set_userinfo_impl, find_first_of, split_userinfo,
}

unfoldable pub set_user_view : PctEncodedView → Url → Result Url
unfolding contents set_user
set_user_view s u = elim (contents s) [
  | none ↦ err undefined
  | some t ↦ do v ← set_user t u; ok (set_decoded id_user s.dn_ v)
]

unfoldable pub set_password_view : PctEncodedView → Url → Result Url
unfolding contents set_password
set_password_view s u = elim (contents s) [
  | none ↦ err undefined
  | some t ↦ do v ← set_password t u; ok (set_decoded id_pass s.dn_ v)
]

-- The position of the ':' is counted over the characters of the view.
unfoldable pub set_userinfo_view : PctEncodedView → Url → Result Url
unfolding contents set_userinfo_impl find_first_of split_userinfo get_range
set_userinfo_view s u = elim (contents s) [
  | none ↦ err undefined
  | some t ↦ do
    v ← set_userinfo_impl (pct_encode_bytes userinfo_chars encode_opts t) u
    let w = put_encoded (offset v id_user + 2) (offset v id_host - 1) t userinfo_chars v
    let sep : ℕ = elim (find_first_of b':' t) [ none ↦ length t | some i ↦ i ]
    ok (split_userinfo s.dn_ sep (find_first_of b':' (get_range w id_user id_host)) w)
]

unfoldable pub set_fragment_view : PctEncodedView → Url → Result Url
unfolding contents set_fragment
set_fragment_view s u = elim (contents s) [
  | none ↦ err undefined
  | some t ↦ do v ← set_fragment t u; ok (set_decoded id_frag s.dn_ v)
]
