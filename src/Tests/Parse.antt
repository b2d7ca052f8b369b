-- ===== src/Tests/Parse.antt =====
-- Instances of the theorems on parsing whole strings and on dot segments, and test runs.
use boost_url.Base.{
  ◌≤◌, ◌≡◌, refl, true, false, some, [], arith, Bytes, codes, length, mismatch, undefined, err,
}
use boost_url.Chars.{hexdig_value}
use boost_url.DotSegments.{
  starts_with, before_last_slash, to_slash, first_segment, rule_a, rule_d, up, up_at_end, dot_step,
  dot_loop, remove_dot_segments,
}
use boost_url.DotSegments.Bounds.{remove_dot_segments_bounds}
use boost_url.DotSegments.First.{remove_dot_segments_first}
use boost_url.Rfc.Parse.{parse_uri_reference}
use boost_url.Rfc.Parse.Undefined.{parse_uri_reference_undefined}
use boost_url.Rfc.Uri.{uri_rule}

abbrev reference_sample : Bytes
reference_sample = codes "../a/b?k=v#f"

abbrev whole_sample : Bytes
whole_sample = codes "https://user@example.com/a?b"

parse_uri_reference_undefined_example :
    (uri_rule (codes "/%zz") ≡ err mismatch) × (parse_uri_reference (codes "/%zz") ≡ err undefined)
parse_uri_reference_undefined_example =
    parse_uri_reference_undefined b'z' b'z' [] (unfold hexdig_value in refl) (omega arith)

remove_dot_segments_bounds_example :
    (out : Bytes) × (remove_dot_segments (codes "/a/../../b/.") true ≡ some out) × (length out ≤ 12)
remove_dot_segments_bounds_example = remove_dot_segments_bounds (codes "/a/../../b/.") true

remove_dot_segments_first_example :
    (remove_dot_segments (codes "mid/..") true ≡ some (codes "mid/"))
    × (remove_dot_segments (codes "mid/..") false ≡ some (codes "mid/.."))
remove_dot_segments_first_example =
    remove_dot_segments_first b'm' (codes "id") refl (refl, (refl, (refl, tt)))

-- The examples of RFC 3986, 5.2.4; and unmatched segments, which are kept on demand.
remove_dot_segments_run :
    (remove_dot_segments (codes "/a/b/c/./../../g") true ≡ some (codes "/a/g"))
    × (remove_dot_segments (codes "mid/content=5/../6") true ≡ some (codes "mid/6"))
    × (remove_dot_segments (codes "/a/../../b/.") true ≡ some (codes "/b/"))
    × (remove_dot_segments (codes "../a/../../b") false ≡ some (codes "../../b"))
unfolding remove_dot_segments rule_a rule_d dot_loop dot_step up up_at_end first_segment to_slash
    before_last_slash starts_with
remove_dot_segments_run = (refl, refl, refl, refl)

-- The first segment of a relative path is not removed, and a ".." that was kept is.
remove_dot_segments_kept_run :
    (remove_dot_segments (codes "a/../b") true ≡ some (codes "a/b"))
    × (remove_dot_segments (codes "../a/../../../b") false ≡ some (codes "../b"))
unfolding remove_dot_segments rule_a rule_d dot_loop dot_step up up_at_end first_segment to_slash
    before_last_slash starts_with
remove_dot_segments_kept_run = (refl, refl)
