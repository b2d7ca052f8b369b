-- ===== src/Tests/Containers.antt =====
-- The containers of segments and parameters, on "http://u@h:80/p?q#f".
use boost_url.Base.{◌≡◌, refl, none, some, codes, ok}
use boost_url.Chars.{pchars, query_chars}
use boost_url.Pct.Validate.{judge, validate_in_set}
use boost_url.Tests.Path.{path_left}
use boost_url.Tests.Query.{left_of}
use boost_url.Tests.Sample.{cut, sample}
use boost_url.Url.Params.{param_at, replace_value, clear_params, push_back_param}
use boost_url.Url.Segments.{insert_segment, replace_segment, push_back_segment, pop_back_segment}

segments_run :
    (path_left (insert_segment 0 (codes "a") sample) ≡ (codes "http://u@h:80/a/p?q#f", 2))
    × (path_left (push_back_segment (codes "a") sample) ≡ (codes "http://u@h:80/p/a?q#f", 2))
    × (path_left (pop_back_segment sample) ≡ (codes "http://u@h:80/?q#f", 0))
    × (path_left (replace_segment 0 (codes "a") sample) ≡ (codes "http://u@h:80/a?q#f", 1))
unfolding insert_segment push_back_segment pop_back_segment replace_segment cut judge pchars
    validate_in_set
segments_run = (refl, refl, refl, refl)

params_run :
    (left_of (push_back_param (record { key = codes "k"; value = some (codes "v") }) sample)
      ≡ (codes "http://u@h:80/p?q&k=v#f", 2))
    × (left_of (clear_params sample) ≡ (codes "http://u@h:80/p?#f", 0))
    × (left_of (replace_value 0 (codes "v") sample) ≡ (codes "http://u@h:80/p?q=v#f", 1))
    × (param_at 0 sample ≡ ok (record { key = codes "q"; value = none }))
unfolding push_back_param clear_params replace_value param_at cut judge query_chars
params_run = (refl, refl, refl, refl)
