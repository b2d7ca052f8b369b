-- ===== src/Tests/Scheme.antt =====
-- Instances of the theorems on schemes, and test runs.
use boost_url.Base.{◌≡◌, refl, ◌↔◌, map, codes}
use boost_url.Chars.{to_lower}
use boost_url.Scheme.{string_to_scheme, to_string, https}
use boost_url.Scheme.Laws.{string_to_scheme_iff}

string_to_scheme_run : string_to_scheme (codes "HTtps") ≡ https
unfolding string_to_scheme to_lower
string_to_scheme_run = refl

string_to_scheme_iff_example :
    (string_to_scheme (codes "HTtps") ≡ https) ↔ (map to_lower (codes "HTtps") ≡ to_string https)
string_to_scheme_iff_example = string_to_scheme_iff (codes "HTtps") https tt
