-- ===== src/Url/Userinfo/Read.antt =====
-- What the accessors read after `set_userinfo` of a user name, ':' and a password.
-- There is no ':' among the bytes.
use boost_url.Base.{
  ℕ, suc, ◌+◌, ◌-◌, ◌<◌, ◌≡◌, refl, sym, ap, ◌∙◌, inl, inr, false, some, [], ◌∷◌, ◌++◌,
  append_assoc, arith, leb, ◌==◌, Bool-cases, Bytes, length, take, drop, length-append, take-append,
  drop-append, All, ok,
}
use boost_url.Chars.{userinfo_chars}
use boost_url.Pct.Encode.{pct_encode_bytes, encode_one, pct_encode_to_string}
use boost_url.Pct.Exact.{encode_all, pct_encode_to_string-exact}
use boost_url.Pct.View.{construct, contents}
use boost_url.Pct.View.RoundTrip.{contents-pct_encode_to_string}
use boost_url.Url.{id_user, id_pass, id_host, pos_sub, get, Url}
use boost_url.Url.Fragment.{encode_opts}
use boost_url.Url.Frame.{IsValid}
use boost_url.Url.Replace.{Fits}
use boost_url.Url.Userinfo.{find_first_of, or_npos, set_userinfo}
use boost_url.Url.Userinfo.Laws.{whole, cut_of, Sizes, set_userinfo_lem}
use boost_url.Url.View.{view_opts, encoded_user, user, encoded_password, password}
use mathlib.Core.Path.{subst}

abbrev pub NoColon : Bytes → Type 0
NoColon = All (λ c. (c == b':') ≡ false)

NoColon-append : (xs ys : Bytes) → NoColon xs → NoColon ys → NoColon (xs ++ ys)
NoColon-append [] ys h k = k
NoColon-append (x ∷ xs) ys (h, hs) k = (h, NoColon-append xs ys hs k)

find_first_of-colon :
    (xs ys : Bytes) → NoColon xs → find_first_of b':' (xs ++ b':' ∷ ys) ≡ some (length xs)
unfolding find_first_of
find_first_of-colon [] ys h = refl
find_first_of-colon (x ∷ xs) ys (h, hs) = rw (h, find_first_of-colon xs ys hs)

abbrev encoded : Bytes → Bytes
encoded = encode_all userinfo_chars encode_opts

encode_one-NoColon :
    (c : ℕ) → (c == b':') ≡ false → NoColon (encode_one userinfo_chars encode_opts c)
unfolding encode_one
encode_one-NoColon c h = elim (Bool-cases (userinfo_chars c)) [
  | inl plain' ↦ rw plain' (h, tt)
  | inr escaped ↦ rw escaped (refl, (ground arith, (ground arith, tt)))
]

encode_all-NoColon : (s : Bytes) → NoColon s → NoColon (encoded s)
encode_all-NoColon [] h = tt
encode_all-NoColon (c ∷ s) (h, hs) =
    NoColon-append (encode_one userinfo_chars encode_opts c) (encoded s) (encode_one-NoColon c h)
      (encode_all-NoColon s hs)

encode_all-append : (xs ys : Bytes) → encoded (xs ++ ys) ≡ encoded xs ++ encoded ys
encode_all-append [] ys = refl
encode_all-append (x ∷ xs) ys =
    ap (◌++◌ (encode_one userinfo_chars encode_opts x)) (encode_all-append xs ys)
    ∙ sym (append_assoc (encode_one userinfo_chars encode_opts x) (encoded xs) (encoded ys))

encoded-colon :
    (who pass : Bytes) → encoded (who ++ b':' ∷ pass) ≡ encoded who ++ b':' ∷ encoded pass
encoded-colon who pass =
    encode_all-append who (b':' ∷ pass)
    ∙ ap (λ e. encoded who ++ (e ++ encoded pass))
        (let colon : encode_one userinfo_chars encode_opts b':' ≡ b':' ∷ [] =
            unfold encode_one userinfo_chars in refl in
          colon)

userinfo_chars_no_pct : userinfo_chars b'%' ≡ false
unfolding userinfo_chars
userinfo_chars_no_pct = refl

encoded_password-get :
    (v : Url) (e : Bytes) → get v id_pass ≡ b':' ∷ (e ++ b'@' ∷ []) → encoded_password v ≡ e
unfolding encoded_password
encoded_password-get v e part =
    let size : length (e ++ b'@' ∷ []) ≡ length e + 1 = length-append e (b'@' ∷ []) in
    let more : leb (suc (length (e ++ b'@' ∷ []))) 1 ≡ false = ground arith in
    let n : suc (length (e ++ b'@' ∷ [])) - 2 ≡ length e = omega arith in
    rw (part, more, n) (take-append e (b'@' ∷ []))

-- Both parts, of a URL that shares them at the first ':'.
read_parts :
    (v : Url) (who pass : Bytes)
    → All (λ c. c < 256) who
    → All (λ c. c < 256) pass
    → (get v id_user ≡ b'/' ∷ b'/' ∷ encoded who)
    → (get v id_pass ≡ b':' ∷ (encoded pass ++ b'@' ∷ []))
    → (contents (user v) ≡ some who) × (contents (password v) ≡ some pass)
unfolding user password encoded_user
read_parts v who pass hw hp one two =
    let reads : (s : Bytes) (n : ℕ)
        → All (λ c. c < 256) s
        → contents (construct (encoded s) n (view_opts false)) ≡ some s =
      λ s n h. rw (pct_encode_to_string-exact userinfo_chars encode_opts s).0 at (
        contents-pct_encode_to_string userinfo_chars encode_opts (view_opts false)
          userinfo_chars_no_pct refl (λ e. absurd (ground arith)) s n h) in
    (
      rw one (reads who (v.decoded_ id_user) hw),
      rw (encoded_password-get v (encoded pass) two) (reads pass (v.decoded_ id_pass) hp),
    )

-- On a valid table and while the result fits, after `set_userinfo` of a user name without ':', a
-- ':' and a password, `user()` reads the name and `password()` the password. But the sizes of the
-- two views are one less than the name's and one more than the password's.
pub user-set_userinfo :
    (who pass : Bytes) (u : Url)
    → IsValid u
    → NoColon who
    → All (λ c. c < 256) who
    → All (λ c. c < 256) pass
    → Fits u id_user id_host (pct_encode_bytes userinfo_chars encode_opts (who ++ b':' ∷ pass) + 3)
    → (v : Url) × (set_userinfo (who ++ b':' ∷ pass) u ≡ ok v)
      × (contents (user v) ≡ some who)
      × (contents (password v) ≡ some pass)
      × ((user v).dn_ ≡ pos_sub (length who) 1)
      × ((password v).dn_ ≡ pos_sub (length (who ++ b':' ∷ pass)) (length who))
user-set_userinfo who pass u valid clear hw hp fits =
    let s = who ++ b':' ∷ pass in
    let xs : Bytes = b'/' ∷ b'/' ∷ encoded who in
    let ys : Bytes = encoded pass ++ b'@' ∷ [] in
    let parts : whole (pct_encode_to_string s userinfo_chars encode_opts) ≡ xs ++ b':' ∷ ys =
      ap whole
        ((pct_encode_to_string-exact userinfo_chars encode_opts s).0 ∙ encoded-colon who pass)
      ∙ ap (λ l. b'/' ∷ b'/' ∷ l) (append_assoc (encoded who) (b':' ∷ encoded pass) (b'@' ∷ [])) in
    let found : find_first_of b':' (xs ++ b':' ∷ ys) ≡ some (length xs) =
      find_first_of-colon xs ys (refl, (refl, encode_all-NoColon who clear)) in
    let (v, e, (ok_v, one, two, others), sizes) = set_userinfo_lem s u valid fits in
    let enc = pct_encode_to_string s userinfo_chars encode_opts in
    let found_whole : find_first_of b':' (whole enc) ≡ some (length xs) =
      ap (find_first_of b':') parts ∙ found in
    let read =
      read_parts v who pass hw hp
        (one
          ∙ ap (λ o. take (cut_of enc o) (whole enc)) found_whole
          ∙ ap (take (length xs)) parts
          ∙ take-append xs (b':' ∷ ys))
        (two
          ∙ ap (λ o. drop (cut_of enc o) (whole enc)) found_whole
          ∙ ap (drop (length xs)) parts
          ∙ drop-append xs (b':' ∷ ys)) in
    let stored = subst (λ o. Sizes s o v) found_whole sizes in
    let sep : find_first_of b':' s ≡ some (length who) = find_first_of-colon who pass clear in
    (
      v,
      e,
      read.0,
      read.1,
      unfold user construct in stored.0 ∙ ap (λ o. pos_sub (or_npos o) 1) sep,
      unfold password construct in stored.1 ∙ ap (λ o. pos_sub (length s) (or_npos o)) sep,
    )
