-- ===== src/Tests/Normalize.antt =====
-- Runs of the normalization.
use boost_url.Base.{ℕ, ◌≡◌, refl, List, [], ◌∷◌, arith, codes}
use boost_url.Chars.{hexdig_value, to_lower, reg_name_chars}
use boost_url.Pct.Decode.{decode_hex, read_one}
use boost_url.Tests.Sample.{cut, sample, cut-IsValid}
use boost_url.Url.{id_host, len_range, get, Url}
use boost_url.Url.Frame.{IsValid}
use boost_url.Url.Normalize.{decoded_to_lower, normalize_octets_impl}
use boost_url.Url.Normalize.Octets.{normal}
use boost_url.Url.Normalize.Octets.Whole.{normalize_octets_impl_lem}
use boost_url.Url.Replace.{Replaced}

decoded_to_lower_run : decoded_to_lower (codes "A%2FB") ≡ codes "a%2Fb"
unfolding decoded_to_lower to_lower
decoded_to_lower_run = refl

abbrev host_sizes : List ℕ
host_sizes = 0 ∷ 2 ∷ 0 ∷ 7 ∷ 0 ∷ 0 ∷ 0 ∷ 0 ∷ []

-- "//%2fa%7e", a host with two escapes.
abbrev two_escapes : Url
two_escapes = record sample { chars = codes "//%2fa%7e"; offset_ = cut host_sizes }

two_escapes-IsValid : IsValid two_escapes
two_escapes-IsValid =
    cut-IsValid two_escapes host_sizes refl (unfold cut in refl) (unfold cut in omega arith)

-- In the second host the escape that stays is lost.
normalize_run :
    ((normalize_octets_impl id_host reg_name_chars two_escapes).chars ≡ codes "//%2Fa~")
    × ((normalize_octets_impl id_host reg_name_chars
          (record two_escapes { chars = codes "//a%7e%2f" })).chars
        ≡ codes "//a~7e%")
unfolding normalize_octets_impl cut reg_name_chars read_one decode_hex hexdig_value len_range
normalize_run = (refl, refl)

normalize_octets_impl_lem_example :
    Replaced two_escapes id_host
      (normal reg_name_chars (get two_escapes id_host))
      (normalize_octets_impl id_host reg_name_chars two_escapes)
unfolding decode_hex hexdig_value
normalize_octets_impl_lem_example =
    normalize_octets_impl_lem two_escapes id_host reg_name_chars two_escapes-IsValid (omega arith)
      (unfold get cut reg_name_chars in (refl, tt))
