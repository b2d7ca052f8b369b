-- ===== src/Url/Path/Edit.antt =====
-- The path setters of impl/url_base.ipp, with the iterators of detail/any_path_iter.hpp and
-- detail/impl/any_path_iter.ipp that measure and copy what is inserted.
pub mod Clean
pub mod Prefix
pub mod Set
use boost_url.Base.{
  ℕ, zero, suc, ◌+◌, ◌-◌, Bool, true, false, not, ◌&&◌, ◌||◌, Option, none, some, [], ◌∷◌, ◌++◌,
  ltb, ◌==◌, if◌then◌else◌, Bytes, codes, length, take, drop, replicate, is_empty, equal, ◌>>=◌,
  Result, length_error, invalid_argument, undefined, err, ok,
}
use boost_url.Chars.{pchars}
use boost_url.DotSegments.{starts_with}
use boost_url.Ipv6.{colon}
use boost_url.Pct.View.{deref, advance, contents, PctEncodedView}
use boost_url.Url.{
  id_port, id_path, pos_sub, max_size, offset, size, len, get, set_size, split, put, Url,
}
use boost_url.Url.Iter.{to_sep, plain_iter, enc_iter, measure, measure_loop, copy_loop, AnyIter}
use boost_url.Url.Path.{path_prefix, segment}
use boost_url.Url.Resize.{resize_part}
use boost_url.Url.Userinfo.{find_first_of}
use boost_url.Url.View.{has_scheme, has_authority, is_path_absolute}
use mathlib.Core.Option

abbrev pub drop_slash : Bytes → Bytes
drop_slash s = if starts_with (codes "/") s then drop 1 s else s

-- Where a path iterator starts: behind a '/' in front.
unfoldable pub first_of_path : Bytes → Option (Bytes × Bytes)
unfolding to_sep starts_with
first_of_path [] = none
first_of_path (c ∷ s) = some (to_sep b'/' (drop_slash (c ∷ s)))

-- `any_path_iter`: with the first segment.
pub record PathIter : Type 0 where
  pub iter : AnyIter
  pub front : Bytes

abbrev front_of : Option (Bytes × Bytes) → Bytes
front_of none = []
front_of (some (s, rest)) = s

unfoldable pub plain_path_iter : Bytes → PathIter
unfolding first_of_path plain_iter
plain_path_iter s = record {
  iter = plain_iter pchars b'/' (first_of_path s);
  front = front_of (first_of_path s);
}

unfoldable pub enc_path_iter : Bytes → PathIter
unfolding first_of_path enc_iter
enc_path_iter s = record {
  iter = enc_iter pchars b'/' (first_of_path s);
  front = front_of (first_of_path s);
}

-- The characters of a view in front of the first one that reads as '/'.
unfoldable pub view_to_slash : ℕ → Bool → Bytes → Bytes
unfolding deref advance
view_to_slash fuel plus [] = []
view_to_slash zero plus (c ∷ s) = []
view_to_slash (suc fuel) plus (c ∷ s) = elim (deref plus c s) [
  | none ↦ []
  | some b ↦ elim (advance c s) [
    | none ↦ []
    | some rest ↦
        let front = view_to_slash fuel plus rest in
        if b == b'/' then [] else take (length (c ∷ s) - length rest) (c ∷ s) ++ front
  ]
]

-- `view_path_iter`: on the decoded characters, but the first segment is encoded.
unfoldable pub view_path_iter : PctEncodedView → Bytes → PathIter
unfolding first_of_path plain_iter view_to_slash advance
view_path_iter v decoded = record {
  iter = plain_iter pchars b'/' (first_of_path decoded);
  front = view_to_slash (length v.encoded) v.plus_to_space_ (elim v.encoded [
    | [] ↦ []
    | c ∷ s ↦
        if starts_with (codes "/") decoded
        then front_of (Option.map (λ t. (t, [])) (advance c s))
        else c ∷ s
  ]);
}

-- `edit_segments` on the characters: room for `n` characters in place of the segments [i0, i1). What
-- stands behind them is moved; the room's content is unspecified (here what stood there, and 0). A URL
-- that would become empty is not changed.
unfoldable pub edit_segments : ℕ → ℕ → ℕ → ℕ → Url → Result (ℕ × Url)
unfolding segment path_prefix get set_size len
edit_segments i0 i1 n nseg u = do
  p0 ← segment i0 u
  p ← segment i1 u
  let p1 =
      if i1 == 0
      then p + path_prefix (get u id_path)
      else if i0 == 0 && nseg == 0 && ltb i1 u.nseg_
      then p + 1
      else p
  let n0 = p1 - p0
  let added = if ltb n0 n then n - n0 else 0
  let v = put (p0 + n) (drop p1 u.chars) (record u { chars = u.chars ++ replicate added 0 })
  let w = set_size id_path (pos_sub (len u id_path) (pos_sub n0 n)) v
  (if size u + n - n0 == 0
      then ok (p0, u)
      else if ltb max_size (size u + n - n0)
      then err length_error
      else ok (
        p0,
        record w { chars = take (size u + n - n0) v.chars; nseg_ = u.nseg_ + nseg - (i1 - i0) },
      ))

-- The characters and the segments that are inserted, without what is put in front and behind.
unfoldable pub measure_path : ℕ → AnyIter → Result (ℕ × ℕ)
unfolding measure measure_loop
measure_path fuel it = elim (measure it it.place) [
  | err _ ↦ err invalid_argument
  | ok none ↦ ok (0, 0)
  | ok (some (k, next)) ↦ measure_loop fuel it next k 0
]

-- The size of the prefix for `nseg` segments at `i0`, of which the first is `front`.
unfoldable pub prefix_size : Url → Bool → ℕ → ℕ → Bytes → ℕ
unfolding has_authority has_scheme find_first_of
prefix_size u abs i0 nseg front =
    let colon : Bool = elim (find_first_of b':' front) [ none ↦ false | some _ ↦ true ] in
    if ltb 0 i0
    then (if ltb 0 nseg then 1 else 0)
    else if equal front (codes ".") && ltb 1 nseg
    then (if abs || has_authority u then 3 else 2)
    else if has_authority u
    then (if nseg == 0 then (if abs then 1 else 0) else if not (is_empty front) then 1 else 3)
    else if ltb 1 nseg && is_empty front
    then 3
    else if not abs && not (has_scheme u) && (colon || is_empty front)
    then (if ltb 0 nseg then 2 else 0)
    else if abs && ltb 0 nseg && is_empty front
    then 3
    else if abs
    then 1
    else 0

unfoldable pub prefix_text : ℕ → Bytes
prefix_text n =
    if n == 3 then codes "/./" else if n == 2 then codes "./" else if n == 1 then codes "/" else []

-- Behind `nseg` segments that are inserted in front of others.
unfoldable pub suffix_text : ℕ → ℕ → ℕ → ℕ → Bytes
suffix_text i0 i1 nseg old =
    if ltb 0 nseg && i0 == 0 && i1 == 0 && not (old == 0) then codes "/" else []

-- `abs_hint`: `none` stands for -1.
unfoldable pub becomes_absolute : Option Bool → Url → Bool
unfolding has_authority is_path_absolute
becomes_absolute none u = is_path_absolute u
becomes_absolute (some hint) u = if has_authority u then is_path_absolute u else hint

-- `edit_segments` with an iterator.
unfoldable pub insert_segments : ℕ → ℕ → ℕ → PathIter → Option Bool → Url → Result Url
unfolding becomes_absolute measure_path prefix_size edit_segments copy_loop prefix_text suffix_text
insert_segments fuel i0 i1 it hint u = do
  let abs = becomes_absolute hint u
  (k, nseg) ← measure_path fuel it.iter
  let prefix = prefix_size u abs i0 nseg it.front
  let suffix = suffix_text i0 i1 nseg u.nseg_
  let n = k + (prefix + length suffix)
  (dest, v) ← edit_segments i0 i1 n nseg u
  let body = copy_loop b'/' nseg it.iter it.iter.place (n - prefix)
  ok (put dest (prefix_text prefix ++ (body ++ suffix)) v)

-- The setters. The size of the string is enough fuel.
unfoldable pub set_path : Bytes → Url → Result Url
unfolding insert_segments plain_path_iter starts_with
set_path s u =
    insert_segments (length s + 1) 0 u.nseg_ (plain_path_iter s) (some (starts_with (codes "/") s))
      u

unfoldable pub set_encoded_path : Bytes → Url → Result Url
unfolding insert_segments enc_path_iter starts_with
set_encoded_path s u =
    insert_segments (length s + 1) 0 u.nseg_ (enc_path_iter s) (some (starts_with (codes "/") s)) u

-- `set_path(pct_encoded_view)`
unfoldable pub set_path_view : PctEncodedView → Url → Result Url
unfolding insert_segments view_path_iter contents starts_with
set_path_view v u = elim (contents v) [
  | none ↦ err undefined
  | some t ↦
      insert_segments (length t + 1) 0 u.nseg_ (view_path_iter v t)
        (some (starts_with (codes "/") t)) u
]

-- Whether it could be done, and the URL. `nseg_` is not set.
unfoldable pub set_path_absolute : Bool → Url → Result (Bool × Url)
unfolding resize_part split has_authority len get starts_with
set_path_absolute absolute u =
    let n = len u id_port in
    let add = (do v ← resize_part id_path 1 u; ok (true, put (offset v id_path) (codes "/") v)) in
    let removed = (do v ← resize_part id_port n (split id_port (n + 1) u); ok (true, v)) in
    let grow = (do
      v ← resize_part id_port (n + 1) u
      ok (true, put (offset v id_port + n) (codes "/") (split id_port n v))) in
    if len u id_path == 0
    then (if absolute then add else ok (true, u))
    else if starts_with (codes "/") (get u id_path)
    then (if absolute
        then ok (true, u)
        else if has_authority u && ltb 1 (len u id_path)
        then ok (false, u)
        else removed)
    else if absolute
    then grow
    else ok (true, u)
