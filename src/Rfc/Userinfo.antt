-- ===== src/Rfc/Userinfo.antt =====
-- `scheme_rule` and `userinfo_rule`: rfc/detail/impl/scheme_rule.ipp and userinfo_rule.ipp.
pub mod Yields
use boost_url.Base.{Bool, true, false, not, [], ◌∷◌, ◌==◌, if◌then◌else◌, Bytes, mismatch, err, ok}
use boost_url.Chars.{CharSet, ◌∪◌, alpha_chars, alnum_chars, unreserved_chars, sub_delim_chars}
use boost_url.Grammar.{Rule, ◌>>=◌, give, find_if_not}
use boost_url.Pct.View.{PctEncodedView}
use boost_url.Rfc.PctEncoded.{pct_encoded_rule}
use boost_url.Scheme.{string_to_scheme, Scheme}

-- `scheme_rule::value_type`
pub record SchemeValue : Type 0 where
  pub scheme : Bytes
  pub scheme_id : Scheme

unfoldable pub scheme_chars : CharSet
unfolding alnum_chars
scheme_chars = alnum_chars ∪ ◌==◌ b'+' ∪ ◌==◌ b'-' ∪ ◌==◌ b'.'

unfoldable pub scheme_rule : Rule SchemeValue
unfolding alpha_chars find_if_not scheme_chars string_to_scheme
scheme_rule [] = err mismatch
scheme_rule (c ∷ s) =
    let (more, rest) = find_if_not scheme_chars s in
    if not (alpha_chars c)
    then err mismatch
    else ok (record { scheme = c ∷ more; scheme_id = string_to_scheme (c ∷ more) }, rest)

-- `userinfo_rule_t::value_type`
pub record UserinfoValue : Type 0 where
  pub user : PctEncodedView
  pub has_password : Bool
  pub password : PctEncodedView

-- A `pct_encoded_view` that was not assigned.
abbrev pub no_view : PctEncodedView
no_view = record { encoded = []; dn_ = 0; plus_to_space_ = true }

unfoldable pub uchars : CharSet
unfolding unreserved_chars sub_delim_chars
uchars = unreserved_chars ∪ sub_delim_chars

unfoldable pub pwchars : CharSet
unfolding uchars
pwchars = uchars ∪ ◌==◌ b':'

abbrev pub only_user : PctEncodedView → UserinfoValue
only_user user = record { user = user; has_password = false; password = no_view }

-- From the ':' on.
unfoldable pub password_rule : PctEncodedView → Rule UserinfoValue
unfolding pwchars pct_encoded_rule
password_rule user [] = ok (only_user user, [])
password_rule user (c ∷ s) =
    let with_password : Rule UserinfoValue = do
      password ← pct_encoded_rule pwchars
      give (record { user = user; has_password = true; password = password })
    in if c == b':' then with_password s else ok (only_user user, c ∷ s)

unfoldable pub userinfo_rule : Rule UserinfoValue
unfolding uchars pct_encoded_rule password_rule
userinfo_rule = pct_encoded_rule uchars >>= password_rule
