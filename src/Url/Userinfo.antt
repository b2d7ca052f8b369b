-- ===== src/Url/Userinfo.antt =====
-- The user and password setters of impl/url_base.ipp.
pub mod Laws
pub mod Read
use boost_url.Base.{
  ℕ, suc, ◌+◌, ◌-◌, true, false, not, Option, none, some, [], ◌∷◌, ltb, ◌==◌, if◌then◌else◌, Bytes,
  length, ◌>>=◌, Result, invalid_argument, err, ok,
}
use boost_url.Chars.{user_chars, password_chars, userinfo_chars}
use boost_url.Pct.Decode.{PctDecodeOpts}
use boost_url.Pct.Encode.{pct_encode_bytes}
use boost_url.Pct.Validate.{validate_in_set}
use boost_url.Url.{
  id_user, id_pass, id_host, pos_mod, pos_sub, offset, len, get_range, split, put, set_decoded, Url,
}
use boost_url.Url.Fragment.{encode_opts, put_encoded}
use boost_url.Url.Resize.{resize_range, resize_part}
use mathlib.Core.Option

-- `dest + 2`, where the caller writes, is two behind the offset of the user.
unfoldable pub set_user_impl : ℕ → Url → Result Url
unfolding resize_part split
set_user_impl n u =
    let add = do
      v ← resize_part id_user (2 + n + 1) u
      let dest = offset v id_user
      let w = split id_user (2 + n) v
      ok (put (dest + (2 + n)) (b'@' ∷ []) (put dest (b'/' ∷ b'/' ∷ []) w))
    in if not (len u id_pass == 0) then resize_part id_user (2 + n) u else add

unfoldable pub set_user : Bytes → Url → Result Url
unfolding set_user_impl
set_user s u = do
  v ← set_user_impl (pct_encode_bytes user_chars encode_opts s) u
  ok (
      set_decoded id_user (length s)
        (put_encoded (offset v id_user + 2) (offset v id_pass) s user_chars v))

abbrev pub decode_opts : PctDecodeOpts
decode_opts = record { allow_null = true; plus_to_space = true; non_normal_is_error = false }

unfoldable pub set_encoded_user : Bytes → Url → Result Url
unfolding set_user_impl validate_in_set
set_encoded_user s u = elim (validate_in_set user_chars decode_opts s) [
  | err _ ↦ err invalid_argument
  | ok n ↦ do
    v ← set_user_impl (length s) u
    ok (put (offset v id_user + 2) s (set_decoded id_user n v))
]

-- The caller writes one behind the offset of the password.
unfoldable pub set_password_impl : ℕ → Url → Result Url
unfolding resize_part resize_range split
set_password_impl n u =
    let keep = do
      v ← resize_part id_pass (1 + n + 1) u
      let dest = offset v id_pass
      ok (put (dest + (n + 1)) (b'@' ∷ []) (put dest (b':' ∷ []) v))
    in let add = do
      v ← resize_range id_user id_host (2 + 1 + n + 1) u
      let dest = offset v id_user
      let w = split id_user 2 v
      ok (put (dest + (2 + n + 1)) (b'@' ∷ []) (put dest (b'/' ∷ b'/' ∷ b':' ∷ []) w))
      in if not (len u id_user == 0) then keep else add

unfoldable pub set_password : Bytes → Url → Result Url
unfolding set_password_impl
set_password s u = do
  v ← set_password_impl (pct_encode_bytes password_chars encode_opts s) u
  ok (
      set_decoded id_pass (length s)
        (put_encoded (offset v id_pass + 1) (offset v id_host - 1) s password_chars v))

unfoldable pub set_encoded_password : Bytes → Url → Result Url
unfolding set_password_impl validate_in_set
set_encoded_password s u = elim (validate_in_set password_chars decode_opts s) [
  | err _ ↦ err invalid_argument
  | ok n ↦ do
    v ← set_password_impl (length s) u
    ok (put (offset v id_pass + 1) s (set_decoded id_pass n v))
]

unfoldable pub remove_password : Url → Result Url
unfolding resize_part
remove_password u =
    let clear = do
      v ← resize_part id_pass 1 u
      ok (set_decoded id_pass 0 (put (offset v id_pass) (b'@' ∷ []) v))
    in if ltb (len u id_pass) 2 then ok u else clear

unfoldable pub set_userinfo_impl : ℕ → Url → Result Url
unfolding resize_range split
set_userinfo_impl n u = do
  v ← resize_range id_user id_host (n + 3) u
  let dest = offset v id_user
  let w = split id_user (n + 2) v
  ok (put (dest + (n + 2)) (b'@' ∷ []) (put dest (b'/' ∷ b'/' ∷ []) w))

-- `find_first_of(c)`
unfoldable pub find_first_of : ℕ → Bytes → Option ℕ
find_first_of c [] = none
find_first_of c (x ∷ s) = if x == c then some 0 else Option.map suc (find_first_of c s)

-- `s.find_first_of(':')` as a number, `npos` being the largest.
abbrev pub or_npos : Option ℕ → ℕ
or_npos none = pos_mod - 1
or_npos (some i) = i

-- The end of `set_userinfo`, by the position of the first ':' in the encoded user info.
unfoldable pub split_userinfo : ℕ → ℕ → Option ℕ → Url → Url
unfolding split
split_userinfo n sep (some pct_sep) w =
    set_decoded id_pass (pos_sub n sep)
      (set_decoded id_user (pos_sub sep 1) (split id_user pct_sep w))
split_userinfo n sep none w = set_decoded id_pass 0 (set_decoded id_user n w)

unfoldable pub set_userinfo : Bytes → Url → Result Url
unfolding set_userinfo_impl find_first_of split_userinfo get_range
set_userinfo s u = do
  v ← set_userinfo_impl (pct_encode_bytes userinfo_chars encode_opts s) u
  let w = put_encoded (offset v id_user + 2) (offset v id_host - 1) s userinfo_chars v
  let sep = or_npos (find_first_of b':' s)
  ok (split_userinfo (length s) sep (find_first_of b':' (get_range w id_user id_host)) w)

unfoldable pub remove_userinfo : Url → Result Url
unfolding resize_range
remove_userinfo u =
    let clear = do
      v ← resize_range id_user id_host 2 u
      ok (set_decoded id_pass 0 (set_decoded id_user 0 v))
    in if len u id_pass == 0 then ok u else clear
