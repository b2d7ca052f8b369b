-- ===== src/Tests/SchemePart.antt =====
-- The scheme setters, on concrete URLs.
use boost_url.Base.{
  ℕ, ◌≡◌, refl, inl, Bool, List, [], ◌∷◌, ◌++◌, arith, if◌then◌else◌, Bytes, codes, ◌>>=◌, Result,
  err, ok,
}
use boost_url.Chars.{alpha_chars, to_lower}
use boost_url.DotSegments.{starts_with}
use boost_url.Grammar.{parse_all, find_if_not}
use boost_url.Rfc.Userinfo.{scheme_chars, scheme_rule}
use boost_url.Scheme.{string_to_scheme, Scheme}
use boost_url.Tests.Sample.{cut, sample, cut-IsValid, chars_of}
use boost_url.Url.{id_path, get, HostType, Url}
use boost_url.Url.Frame.{IsValid}
use boost_url.Url.Resize.{shrink_range, grow_range}
use boost_url.Url.SchemePart.{remove_scheme, set_scheme, remove_origin}
use boost_url.Url.SchemePart.Front.{WantsDot, IsSafe}
use boost_url.Url.SchemePart.Laws.{Rescheme, set_scheme_lem}
use boost_url.Url.SchemePart.Remove.{remove_scheme_lem}

abbrev colon_sizes : List ℕ
colon_sizes = 2 ∷ 0 ∷ 0 ∷ 0 ∷ 0 ∷ 3 ∷ 2 ∷ 0 ∷ []

-- "x:a:b?q"
abbrev pub colon_path : Url
colon_path = record sample {
  chars = codes "x:a:b?q";
  offset_ = cut colon_sizes;
  nseg_ = 1;
  scheme_ = Scheme.unknown;
  host_type_ = HostType.none;
  port_number_ = 0;
}

colon_path-IsValid : IsValid colon_path
colon_path-IsValid =
    cut-IsValid colon_path colon_sizes refl (unfold cut in refl) (unfold cut in omega arith)

abbrev dotted_sizes : List ℕ
dotted_sizes = 0 ∷ 0 ∷ 0 ∷ 0 ∷ 0 ∷ 4 ∷ 0 ∷ 0 ∷ []

-- ".//x", a path of the two segments "" and "x".
abbrev dotted_path : Url
dotted_path = record colon_path {
  chars = codes ".//x";
  offset_ = cut dotted_sizes;
  nseg_ = 2;
  scheme_ = Scheme.none;
}

scheme_part_run :
    (chars_of (remove_scheme colon_path) ≡ codes "./a:b?q")
    × (chars_of (remove_scheme sample) ≡ codes "//u@h:80/p?q#f")
    × (chars_of (set_scheme (codes "wss") sample) ≡ codes "wss://u@h:80/p?q#f")
    × (chars_of (remove_scheme colon_path >>= set_scheme (codes "yz")) ≡ codes "yz:a:b?q")
    × (chars_of (remove_origin sample) ≡ codes "/p?q#f")
    × (chars_of (remove_origin colon_path) ≡ codes "./a:b?q")
unfolding remove_scheme set_scheme remove_origin cut shrink_range grow_range starts_with
scheme_part_run = (refl, refl, refl, refl, refl, refl)

abbrev left : Result Url → Bytes × ℕ × Scheme
left (ok u) = (u.chars, u.nseg_, u.scheme_)
left (err _) = ([], 0, Scheme.none)

-- The path that is left has one segment, and `nseg_` is 2; the scheme of `remove_origin` stays.
scheme_part_left :
    (left (set_scheme (codes "yz") dotted_path) ≡ (codes "yz:/x", 2, Scheme.unknown))
    × (left (remove_origin sample) ≡ (codes "/p?q#f", 1, Scheme.http))
unfolding set_scheme remove_origin cut shrink_range grow_range starts_with to_lower
scheme_part_left = (refl, refl)

set_scheme_lem_example :
    (v : Url) × (set_scheme (codes "wss") colon_path ≡ ok v)
    × Rescheme colon_path (codes "wss:") (get colon_path id_path) v
    × (v.scheme_ ≡ Scheme.wss)
unfolding get cut string_to_scheme to_lower
set_scheme_lem_example =
    set_scheme_lem (codes "wss") colon_path
      (record { scheme = codes "wss"; scheme_id = Scheme.wss }) colon_path-IsValid
      (inl (omega arith))
      (unfold parse_all in
        unfold scheme_rule in
        unfold alpha_chars in unfold scheme_chars in unfold find_if_not in refl)
      (unfold cut in omega arith)

remove_scheme_lem_example :
    (dot : Bool) × (v : Url) × (remove_scheme colon_path ≡ ok v)
    × Rescheme colon_path []
        (if dot then codes "./" ++ get colon_path id_path else get colon_path id_path)
        v
    × (v.scheme_ ≡ Scheme.none)
    × WantsDot dot colon_path
    × IsSafe colon_path (get v id_path)
remove_scheme_lem_example =
    remove_scheme_lem colon_path colon_path-IsValid (inl (omega arith))
      (unfold get in unfold cut in omega arith)
