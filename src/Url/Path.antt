-- ===== src/Url/Path.antt =====
-- Where the segments of a path stand: detail/path.hpp, and `segment` of impl/url_base.ipp.
-- The characters at the front of a path that are no part of its segments.
pub mod Laws
pub mod Edit
use boost_url.Base.{
  ℕ, zero, suc, ◌+◌, ◌-◌, ◌&&◌, [], ◌∷◌, ◌==◌, if◌then◌else◌, Bytes, drop, ◌>>=◌, Result, undefined,
  err, ok,
}
use boost_url.Url.{id_path, id_query, offset, get, Url}

unfoldable pub path_prefix : Bytes → ℕ
path_prefix [] = 0
path_prefix (c ∷ []) = if c == b'/' then 1 else 0
path_prefix (c ∷ d ∷ []) = if c == b'/' then 1 else if c == b'.' && d == b'/' then 2 else 0
path_prefix (c ∷ d ∷ e ∷ s) =
    if c == b'/'
    then (if d == b'.' && e == b'/' then 3 else 1)
    else if c == b'.' && d == b'/'
    then 2
    else 0

unfoldable pub clean_path : Bytes → Bytes
unfolding path_prefix
clean_path s = drop (path_prefix s) s

-- The characters in front of the `i`-th '/', counted from 0. A path has a '/' in front of every segment
-- but the first.
unfoldable pub slash_at : ℕ → Bytes → Result ℕ
slash_at i [] = err undefined
slash_at zero (c ∷ s) = if c == b'/' then ok 0 else (do n ← slash_at zero s; ok (1 + n))
slash_at (suc i) (c ∷ s) = do n ← slash_at (if c == b'/' then i else suc i) s; ok (1 + n)

-- The offset of the `i`-th segment.
unfoldable pub segment : ℕ → Url → Result ℕ
unfolding path_prefix slash_at get
segment i u =
    if i == 0 then ok (offset u id_path) else if i == u.nseg_ then ok (offset u id_query) else do
      let prefix = path_prefix (get u id_path)
      n ← slash_at (i - 1) (drop prefix (get u id_path))
      ok (offset u id_path + prefix + n)
