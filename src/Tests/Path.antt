-- ===== src/Tests/Path.antt =====
-- The path setters, on "http://u@h:80/p?q#f" and URLs with no authority.
use boost_url.Base.{
  ℕ, suc, ◌≡◌, refl, inl, Bool, true, false, List, [], ◌∷◌, arith, Bytes, codes, Result, err, ok,
}
use boost_url.Chars.{hexdig_value, pchars, path_chars}
use boost_url.DotSegments.{starts_with}
use boost_url.Pct.Encode.{pct_encode_bytes, pct_encode, pct_encode_to_string}
use boost_url.Pct.Validate.{judge, judge_escape, validate_in_set}
use boost_url.Scheme.{Scheme}
use boost_url.Tests.Sample.{cut, sample, cut-IsValid}
use boost_url.Tests.SchemePart.{colon_path}
use boost_url.Url.{id_path, len_range, adjust, collapse, Url}
use boost_url.Url.Fragment.{encode_opts}
use boost_url.Url.Frame.{IsValid}
use boost_url.Url.Iter.Measured.{seps}
use boost_url.Url.Path.Edit.{set_path, set_encoded_path, set_path_absolute}
use boost_url.Url.Path.Edit.Prefix.{Stands}
use boost_url.Url.Path.Edit.Set.{set_path_lem}
use boost_url.Url.Replace.{Replaced}
use boost_url.Url.Resize.{shrink_range, grow_range}

abbrev one_sizes : List ℕ
one_sizes = 0 ∷ 0 ∷ 0 ∷ 0 ∷ 0 ∷ 1 ∷ 0 ∷ 0 ∷ []

-- "a", with one segment.
abbrev pub one_segment : Url
one_segment = record colon_path {
  chars = codes "a";
  offset_ = cut one_sizes;
  nseg_ = 1;
  scheme_ = Scheme.none;
}

one_segment-IsValid : IsValid one_segment
one_segment-IsValid =
    cut-IsValid one_segment one_sizes refl (unfold cut in refl) (unfold cut in omega arith)

abbrev pub path_left : Result Url → Bytes × ℕ
path_left (ok u) = (u.chars, u.nseg_)
path_left (err _) = ([], 0)

path_run :
    (path_left (set_path (codes "/a b/c") sample) ≡ (codes "http://u@h:80/a%20b/c?q#f", 2))
    × (path_left (set_path (codes "a:b/c") sample) ≡ (codes "http://u@h:80/a:b/c?q#f", 2))
    × (path_left (set_path (codes "a:b/c") one_segment) ≡ (codes "./a:b/c", 2))
    × (path_left (set_path (codes "//x") one_segment) ≡ (codes "/.//x", 2))
    × (path_left (set_path (codes "./x") one_segment) ≡ (codes "././x", 2))
    × (path_left (set_encoded_path (codes "x/%20") one_segment) ≡ (codes "x/%20", 2))
    × (path_left (set_path (codes "/") sample) ≡ (codes "http://u@h:80/./?q#f", 1))
    × (path_left (set_path [] one_segment) ≡ (codes "a", 1))
unfolding set_path set_encoded_path cut pct_encode pct_encode_bytes pchars validate_in_set judge
    judge_escape hexdig_value starts_with
path_run = (refl, refl, refl, refl, refl, refl, refl, refl)

abbrev absolute_left : Result (Bool × Url) → Bool × Bytes
absolute_left (ok (done', u)) = (done', u.chars)
absolute_left (err _) = (false, [])

-- The second path reads as a scheme and a path.
set_path_absolute_run :
    (absolute_left (set_path_absolute true one_segment) ≡ (true, codes "/a"))
    × (absolute_left (
          set_path_absolute false (record one_segment {
            chars = codes "/a:b";
            offset_ = cut (0 ∷ 0 ∷ 0 ∷ 0 ∷ 0 ∷ 4 ∷ 0 ∷ 0 ∷ []);
          }))
        ≡ (true, codes "a:b"))
    × (absolute_left (set_path_absolute false sample) ≡ (false, codes "http://u@h:80/p?q#f"))
unfolding set_path_absolute cut starts_with len_range grow_range adjust collapse shrink_range
set_path_absolute_run = (refl, refl, refl)

set_path_lem_example :
    (p : Bytes) × (v : Url) × (set_path (codes "c:d/e f") one_segment ≡ ok v)
    × Replaced one_segment id_path p v
    × (v.nseg_ ≡ suc (seps b'/' (codes "c:d/e f")))
    × Stands one_segment false (pct_encode_to_string (codes "c:d/e f") path_chars encode_opts) p
unfolding starts_with
set_path_lem_example =
    set_path_lem b'c' (codes ":d/e f") one_segment one_segment-IsValid (inl (omega arith))
      (unfold cut pct_encode_bytes path_chars in omega arith)
