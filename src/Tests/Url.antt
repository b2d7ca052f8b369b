-- ===== src/Tests/Url.antt =====
-- The URL "http://u@h:80/p?q#f" and its setters.
use boost_url.Base.{
  ◌≡◌, refl, Bool, true, false, some, [], ◌∷◌, arith, Bytes, codes, length, Result, err, ok,
}
use boost_url.Chars.{user_chars, password_chars, fragment_chars}
use boost_url.Pct.Encode.{pct_encode_bytes, pct_encode, pct_encode_to_string}
use boost_url.Pct.View.{contents}
use boost_url.Port.{port_rule}
use boost_url.Tests.Sample.{cut, sample, sample-IsValid, chars_of}
use boost_url.Url.{id_user, id_port, id_path, id_frag, len_range, len, get, adjust, collapse, Url}
use boost_url.Url.Authority.{make_printed, set_port, remove_authority}
use boost_url.Url.Fragment.{encode_opts, set_fragment}
use boost_url.Url.Fragment.Laws.{set_fragment_lem}
use boost_url.Url.Frame.{resize_range-Spliced, Spliced}
use boost_url.Url.Replace.{Replaced}
use boost_url.Url.Resize.{shrink_range, grow_range, resize_range}
use boost_url.Url.Userinfo.{set_user, set_password}
use boost_url.Url.View.{port, port_number, fragment}
use boost_url.Url.View.Laws.{fragment-set_fragment, port-set_port}

get-sample : get sample id_port ≡ codes ":80"
unfolding get cut
get-sample = refl

abbrev is_ok {ℓ} : {A : Type ℓ} → Result A → Bool
is_ok (ok _) = true
is_ok (err _) = false

set_fragment_run : chars_of (set_fragment (codes "x y") sample) ≡ codes "http://u@h:80/p?q#x%20y"
unfolding set_fragment grow_range shrink_range collapse adjust len_range cut pct_encode
    pct_encode_bytes fragment_chars
set_fragment_run = refl

set_user_run : chars_of (set_user (codes "me") sample) ≡ codes "http://me@h:80/p?q#f"
unfolding set_user grow_range shrink_range collapse adjust len_range len cut pct_encode
    pct_encode_bytes user_chars
set_user_run = refl

set_password_run : chars_of (set_password (codes "pw") sample) ≡ codes "http://u:pw@h:80/p?q#f"
unfolding set_password grow_range shrink_range collapse adjust len_range len cut pct_encode
    pct_encode_bytes password_chars
set_password_run = refl

remove_authority_run : chars_of (remove_authority sample) ≡ codes "http:/p?q#f"
unfolding remove_authority grow_range shrink_range collapse adjust len_range len cut
remove_authority_run = refl

set_port_run : chars_of (set_port 8080 sample) ≡ codes "http://u@h:8080/p?q#f"
unfolding set_port grow_range shrink_range collapse adjust len_range len cut
set_port_run = refl

set_fragment_lem_example :
    (v : Url) × (set_fragment (codes "x y") sample ≡ ok v)
    × Replaced sample id_frag
        (b'#' ∷ pct_encode_to_string (codes "x y") fragment_chars encode_opts)
        v
    × (v.decoded_ id_frag ≡ length (codes "x y"))
set_fragment_lem_example =
    set_fragment_lem (codes "x y") sample sample-IsValid
      (unfold cut pct_encode_bytes fragment_chars in omega arith)

resize_range-Spliced_example :
    (s : Bytes) × (v : Url) × (resize_range id_user id_path 4 sample ≡ ok v)
    × (length s ≡ 4)
    × Spliced sample id_user id_path s v
resize_range-Spliced_example =
    resize_range-Spliced id_user id_path 4 sample-IsValid (omega arith) (omega arith)
      (unfold cut in omega arith)

fragment-set_fragment_example :
    (v : Url) × (set_fragment (codes "x y") sample ≡ ok v)
    × (contents (fragment v) ≡ some (codes "x y"))
    × ((fragment v).dn_ ≡ length (codes "x y"))
fragment-set_fragment_example =
    fragment-set_fragment (codes "x y") sample sample-IsValid
      (omega arith, (omega arith, (omega arith, tt)))
      (unfold cut pct_encode_bytes fragment_chars in omega arith)

port-set_port_example :
    (v : Url) × (set_port 8080 sample ≡ ok v)
    × (port_rule (port v) ≡ ok (record { str = port v; number = some 8080 }, []))
    × (port_number v ≡ 8080)
port-set_port_example =
    port-set_port 8080 sample (omega arith) sample-IsValid (unfold get len cut in λ h. cc)
      (unfold cut make_printed in omega arith)
