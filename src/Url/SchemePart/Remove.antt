-- ===== src/Url/SchemePart/Remove.antt =====
-- What `remove_scheme` does to the parts of a URL.
use boost_url.Base.{
  ◌≤◌, ◌≡◌, refl, Bool, true, false, [], ◌++◌, arith, ◌==◌, if◌then◌else◌, codes, length, ok,
}
use boost_url.Scheme.{Scheme}
use boost_url.Url.{id_scheme, id_user, id_path, offset, len, get, Url}
use boost_url.Url.Frame.{IsValid}
use boost_url.Url.Parts.{length-get}
use boost_url.Url.Path.Laws.{HasSegments}
use boost_url.Url.Replace.{Replaced-rest, resize_zero-Replaced}
use boost_url.Url.SchemePart.{need_dot, dot_for_scheme, remove_scheme}
use boost_url.Url.SchemePart.Dots.{n_is, dot_for_scheme-Rescheme}
use boost_url.Url.SchemePart.Front.{WantsDot, IsSafe, need_dot-lem}
use boost_url.Url.SchemePart.Laws.{Rescheme, Replaced-Rescheme}

-- `remove_scheme` throws nothing on a valid table with a scheme, for a path of segments. The scheme part is
-- then empty and the id none, every other part but the path keeps its characters, and the table stays valid.
-- "./" is put in front of the path exactly where there is no authority, there is a segment, the path does
-- not start with a '/', and a ':' stands in the path in front of its second segment; else the path is as
-- before. So with no authority and a segment at least, no ':' stands in front of the first '/' of the
-- path that it leaves, and none can be taken for the end of a scheme.
pub remove_scheme_lem :
    (u : Url)
    → IsValid u
    → HasSegments u
    → 2 ≤ length (get u id_scheme)
    → (dot : Bool) × (v : Url) × (remove_scheme u ≡ ok v)
      × Rescheme u [] (if dot then codes "./" ++ get u id_path else get u id_path) v
      × (v.scheme_ ≡ Scheme.none)
      × WantsDot dot u
      × IsSafe u (get v id_path)
unfolding remove_scheme
remove_scheme_lem u valid many two =
    let two_at : 2 ≤ offset u id_user =
      omega (arith, two, length-get valid id_scheme (omega arith)) in
    let there : (len u id_scheme == 0) ≡ false = ground (arith, n_is u valid two_at, two_at) in
    let (dot, e, why, safe) = need_dot-lem u valid many in by dot e why safe two_at there
  where
    by :
        (dot : Bool)
        → need_dot u ≡ ok dot
        → WantsDot dot u
        → IsSafe u (if dot then codes "./" ++ get u id_path else get u id_path)
        → 2 ≤ offset u id_user
        → (len u id_scheme == 0) ≡ false
        → (dot' : Bool) × (v : Url) × (remove_scheme u ≡ ok v)
          × Rescheme u [] (if dot' then codes "./" ++ get u id_path else get u id_path) v
          × (v.scheme_ ≡ Scheme.none)
          × WantsDot dot' u
          × IsSafe u (get v id_path)
    by true e why safe two_at there =
        let r = dot_for_scheme-Rescheme u valid two_at in
        (
          true,
          dot_for_scheme u,
          rw (there, e) refl,
          r,
          unfold dot_for_scheme in refl,
          why,
          rw (r.2) safe,
        )
    by false e why safe two_at there =
        let (v, f, r) = resize_zero-Replaced u id_scheme valid (omega arith) in
        let q =
          Replaced-Rescheme u _ [] (Replaced-rest u _ id_scheme _ _ _ _ _ _ _ Scheme.none r) in
        (
          false,
          record v { scheme_ = Scheme.none },
          rw (there, e, f) refl,
          q,
          refl,
          why,
          rw (q.2) safe,
        )
