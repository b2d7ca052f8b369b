-- ===== src/Url/SchemePart.antt =====
-- The scheme setters and `remove_origin` of impl/url_base.ipp.
pub mod Laws
pub mod Dots
pub mod Front
pub mod Remove
use boost_url.Base.{
  ◌+◌, ◌-◌, Bool, true, false, not, ◌&&◌, ◌||◌, none, some, [], ◌∷◌, ◌++◌, ltb, ◌==◌, if◌then◌else◌,
  Bytes, codes, length, take, drop, is_empty, equal, ◌>>=◌, Result, length_error, invalid_argument,
  err, ok,
}
use boost_url.Base.Slices.{slice}
use boost_url.DotSegments.{starts_with, to_slash}
use boost_url.Grammar.{parse_all}
use boost_url.Pct.Validate.{plain}
use boost_url.Rfc.Userinfo.{scheme_rule}
use boost_url.Scheme.{string_to_scheme, to_string, Scheme}
use boost_url.Url.{
  id_scheme, id_user, id_pass, id_host, id_port, id_path, id_query, id_end, pos_sub, max_size,
  offset, size, len_range, len, get, adjust, set_size, split, put, set_decoded, HostType, Url,
}
use boost_url.Url.Path.{clean_path, segment}
use boost_url.Url.Resize.{resize_range, resize_part}
use boost_url.Url.Userinfo.{find_first_of}
use boost_url.Url.View.{has_authority, path}

-- Whether the path has the prefix "./".
unfoldable pub has_dot : Url → Result Bool
unfolding segment
has_dot u = if u.nseg_ == 0 then ok false else do
  next ← segment 1 u
  ok (
      not (ltb next (offset u id_path + 2))
      && equal (slice (offset u id_path) 2 u.chars) (codes "./"))

-- Remove "./": `memmove` takes the rest of the buffer two characters to the left.
unfoldable pub drop_dot : Url → Url
unfolding set_size len
drop_dot u =
    let p = offset u id_path in
    let v = set_size id_path (pos_sub (len u id_path) 2) u in
    record v { chars = take p u.chars ++ drop (p + 2) u.chars }

unfoldable pub set_scheme_impl : Bytes → Scheme → Url → Result Url
unfolding scheme_rule parse_all has_dot drop_dot resize_part
set_scheme_impl s id u = do
  _ ← parse_all scheme_rule s
  dot ← has_dot u
  v ←
      (if dot
        then (if ltb max_size (pos_sub (size u + length s + 1) 2)
            then err length_error
            else ok (drop_dot u))
        else ok u)
  w ← resize_part id_scheme (length s + 1) v
  ok (record (put (length s) (b':' ∷ []) (put 0 s w)) { scheme_ = id })

-- Whether a path-rootless becomes a path-noscheme that it is not.
unfoldable pub need_dot : Url → Result Bool
unfolding has_authority segment find_first_of
need_dot u =
    let p = offset u id_path in
    if has_authority u || u.nseg_ == 0 || equal (slice p 1 u.chars) (codes "/")
    then ok false
    else do
      next ← segment 1 u
      ok (elim (find_first_of b':' (slice p (next - p) u.chars)) [ none ↦ false | some _ ↦ true ])

-- Remove the scheme, and put "./" in front of the path.
unfoldable pub dot_for_scheme : Url → Url
unfolding adjust len
dot_for_scheme u =
    let n = len u id_scheme in
    let p = offset u id_path in
    let v = put 0 (slice n (p - n) u.chars) u in
    let w = put (p - (n - 2)) (slice p (offset u id_end - p) v.chars) v in
    let x = record w {
      offset_ =
          adjust id_query id_end (pos_sub 0 (n - 2))
            (adjust id_user id_path (pos_sub 0 n) u.offset_);
    } in
    let y = put (offset x id_path) (codes "./") x in
    record y { chars = take (size x) y.chars; scheme_ = Scheme.none }

unfoldable pub remove_scheme : Url → Result Url
unfolding need_dot dot_for_scheme resize_part len
remove_scheme u =
    let plain = (do v ← resize_part id_scheme 0 u; ok (record v { scheme_ = Scheme.none })) in
    let remove = (do dot ← need_dot u; elim dot [ true ↦ ok (dot_for_scheme u) | false ↦ plain ]) in
    if len u id_scheme == 0 then ok u else remove

-- `set_scheme(string_view)`
unfoldable pub set_scheme : Bytes → Url → Result Url
unfolding set_scheme_impl string_to_scheme
set_scheme s u = set_scheme_impl s (string_to_scheme s) u

-- `set_scheme(urls::scheme)`
unfoldable pub set_scheme_id : Scheme → Url → Result Url
unfolding set_scheme_impl remove_scheme to_string
set_scheme_id Scheme.unknown u = err invalid_argument
set_scheme_id Scheme.none u = remove_scheme u
set_scheme_id id u = set_scheme_impl (to_string id) id u

-- `*url_view_base::encoded_segments().begin()`: the first segment, [] if there is none.
unfoldable pub first_segment_of : Url → Bytes
unfolding clean_path to_slash get
first_segment_of u = if u.nseg_ == 0 then [] else (to_slash (clean_path (get u id_path))).0

-- The five splits that give what was written to the path.
abbrev split_all : Url → Url
split_all u =
    split id_port 0 (split id_host 0 (split id_pass 0 (split id_user 0 (split id_scheme 0 u))))

unfoldable pub remove_origin : Url → Result Url
unfolding len_range resize_range split get first_segment_of
remove_origin u =
    let v = record (set_decoded id_host 0 (set_decoded id_pass 0 (set_decoded id_user 0 u))) {
      host_type_ = HostType.none;
      port_number_ = 0;
    } in
    let path = get u id_path in
    let plain = resize_range id_scheme id_path 0 v in
    let dotted = (do
      w ← resize_range id_scheme id_path 1 v
      ok (split_all (put 0 (codes ".") w))) in
    let slashed = (do
      w ← resize_range id_scheme id_path 2 v
      ok (split_all (put 0 (codes "./") w))) in
    if len_range u id_scheme id_path == 0
    then ok u
    else if starts_with (codes "//") path
    then dotted
    else if is_empty path || starts_with (codes "/") path
    then plain
    else elim (find_first_of b':' (first_segment_of u)) [ none ↦ plain | some _ ↦ slashed ]
