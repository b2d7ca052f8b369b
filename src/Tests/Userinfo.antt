-- ===== src/Tests/Userinfo.antt =====
-- Instances of the theorems on the user info, on the URL of Tests/Url.
use boost_url.Base.{◌≡◌, refl, some, arith, codes, length, ok}
use boost_url.Chars.{userinfo_chars}
use boost_url.Pct.Encode.{pct_encode_bytes, pct_encode_to_string}
use boost_url.Pct.View.{contents}
use boost_url.Tests.Sample.{cut, sample, sample-IsValid}
use boost_url.Url.{id_user, pos_sub, Url}
use boost_url.Url.Fragment.{encode_opts}
use boost_url.Url.Shared.{Shared}
use boost_url.Url.Userinfo.{find_first_of, set_userinfo}
use boost_url.Url.Userinfo.Laws.{whole, cut_of, Sizes, set_userinfo_lem}
use boost_url.Url.Userinfo.Read.{user-set_userinfo}
use boost_url.Url.View.{user, password}

set_userinfo_lem_example :
    (v : Url) × (set_userinfo (codes "a:b") sample ≡ ok v)
    × Shared sample id_user
        (whole (pct_encode_to_string (codes "a:b") userinfo_chars encode_opts))
        (cut_of (pct_encode_to_string (codes "a:b") userinfo_chars encode_opts) (
          find_first_of b':'
            (whole (pct_encode_to_string (codes "a:b") userinfo_chars encode_opts))))
        v
    × Sizes
        (codes "a:b")
        (find_first_of b':' (whole (pct_encode_to_string (codes "a:b") userinfo_chars encode_opts)))
        v
set_userinfo_lem_example =
    set_userinfo_lem (codes "a:b") sample sample-IsValid
      (unfold cut pct_encode_bytes userinfo_chars in omega arith)

user-set_userinfo_example :
    (v : Url) × (set_userinfo (codes "me:pw") sample ≡ ok v)
    × (contents (user v) ≡ some (codes "me"))
    × (contents (password v) ≡ some (codes "pw"))
    × ((user v).dn_ ≡ pos_sub (length (codes "me")) 1)
    × ((password v).dn_ ≡ pos_sub (length (codes "me:pw")) (length (codes "me")))
user-set_userinfo_example =
    user-set_userinfo (codes "me") (codes "pw") sample sample-IsValid (refl, (refl, tt))
      (omega arith, (omega arith, tt)) (omega arith, (omega arith, tt))
      (unfold cut pct_encode_bytes userinfo_chars in omega arith)
