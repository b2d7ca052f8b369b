-- ===== src/Url/Query.antt =====
-- The query setters of impl/url_base.ipp, with the iterators of detail/any_query_iter.hpp and
-- detail/impl/any_query_iter.ipp that measure and copy what is inserted.
pub mod Laws
pub mod Set
use boost_url.Base.{
  ℕ, zero, suc, ◌+◌, ◌-◌, Bool, true, false, not, ◌&&◌, ◌||◌, Option, none, some, [], ◌∷◌, ◌++◌,
  ltb, ◌==◌, if◌then◌else◌, Bytes, length, take, drop, replicate, is_empty, ◌>>=◌, Result,
  length_error, invalid_argument, undefined, err, ok,
}
use boost_url.Chars.{query_chars}
use boost_url.Pct.Decode.{pct_decode_bytes_unchecked}
use boost_url.Pct.View.{contents, PctEncodedView}
use boost_url.Url.{
  id_query, id_frag, pos_add, pos_sub, max_size, offset, size, len, get, set_size, put, set_decoded,
  Url,
}
use boost_url.Url.Fragment.{remove_query}
use boost_url.Url.Iter.{to_sep, plain_iter, enc_iter, measure, measure_loop, copy_loop, AnyIter}
use boost_url.Url.Userinfo.{find_first_of}
use boost_url.Url.View.{encoded_query}

-- `raw_param`
pub record RawParam : Type 0 where
  pub at : ℕ
  pub nk : ℕ
  pub nv : ℕ

unfoldable pub make_param : ℕ → Bytes → RawParam
unfolding find_first_of
make_param at s = elim (find_first_of b'=' s) [
  | none ↦ record { at = at; nk = length s; nv = 0 }
  | some i ↦ record { at = at; nk = i; nv = length s - i }
]

-- The loop of `param`, at a parameter that starts at `at` with one more character than `s` has in front
-- of its '&'. The source asserts that there are enough parameters.
unfoldable pub param_loop : ℕ → ℕ → ℕ → Bytes → Result RawParam
unfolding make_param to_sep
param_loop zero at c s = ok (make_param at (c ∷ (to_sep b'&' s).0))
param_loop (suc i) at c s = elim ((to_sep b'&' s).1) [
  | [] ↦ err undefined
  | d ∷ t ↦ param_loop i (at + 1 + length (to_sep b'&' s).0) d t
]

unfoldable pub param : ℕ → Url → Result RawParam
unfolding param_loop make_param get
param i u =
    if u.nparam_ == 0
    then ok (record { at = offset u id_query; nk = 0; nv = 0 })
    else if i == u.nparam_
    then ok (record { at = offset u id_frag; nk = 0; nv = 0 })
    else if ltb u.nparam_ 2
    then ok (make_param (offset u id_query) (get u id_query))
    else elim (get u id_query) [ [] ↦ err undefined | c ∷ s ↦ param_loop i (offset u id_query) c s ]

unfoldable pub first_param : Bytes → Option (Bytes × Bytes)
unfolding to_sep
first_param [] = none
first_param (c ∷ s) = some (to_sep b'&' (c ∷ s))

unfoldable pub plain_query_iter : Bytes → AnyIter
unfolding first_param plain_iter
plain_query_iter s = plain_iter query_chars b'&' (first_param s)

unfoldable pub enc_query_iter : Bytes → AnyIter
unfolding first_param enc_iter
enc_query_iter s = enc_iter query_chars b'&' (first_param s)

-- `view_query_iter`: the same on the decoded characters of the view.
unfoldable pub view_query_iter : Bytes → AnyIter
unfolding plain_query_iter
view_query_iter decoded = plain_query_iter decoded

-- `edit_params` on the characters: room for `n` characters in place of the parameters [i0, i1). What stands
-- behind them is moved; the room's content is unspecified (here what stood there, and 0).
unfoldable pub edit_params : ℕ → ℕ → ℕ → ℕ → Url → Result (ℕ × Url)
unfolding param set_size len
edit_params i0 i1 n nparam u = do
  r0 ← param i0 u
  r1 ← param i1 u
  let n0 = r1.at - r0.at
  let more = if ltb n0 n then n - n0 else 0
  let v = put (r0.at + n) (drop r1.at u.chars) (record u { chars = u.chars ++ replicate more 0 })
  let w = set_size id_query (pos_add (len u id_query) (pos_sub n n0)) v
  (if ltb max_size (size u + n - n0)
      then err length_error
      else ok (
        r0.at,
        record w {
          chars = take (size u + n - n0) v.chars;
          nparam_ = u.nparam_ + nparam - (i1 - i0);
        },
      ))

-- `edit_params` with an iterator: what is measured, and whether a '?' stands in front.
unfoldable pub measure_all : ℕ → ℕ → AnyIter → Bool → Result (ℕ × ℕ × Bool)
unfolding measure measure_loop
measure_all fuel i0 it set_hint = elim (measure it it.place) [
  | err _ ↦ err invalid_argument
  | ok none ↦ ok (if i0 == 0 && set_hint then (1, 0, true) else (0, 0, false))
  | ok (some (k, next)) ↦ do
    (n, nparam) ← measure_loop fuel it next (k + 1) 0
    ok (n, nparam, i0 == 0)
]

unfoldable pub insert_params : ℕ → ℕ → ℕ → AnyIter → Bool → Url → Result Url
unfolding measure_all edit_params copy_loop len
insert_params fuel i0 i1 it set_hint u = do
  let hint = set_hint || not (len u id_query == 0)
  (n, nparam, prefix) ← measure_all fuel i0 it hint
  (dest, v) ← edit_params i0 i1 n nparam u
  let question = if prefix then b'?' ∷ [] else []
  let amp = if not (nparam == 0) && not (i0 == 0) then b'&' ∷ [] else []
  let room = n - length amp
  ok (put dest (question ++ (amp ++ copy_loop b'&' nparam it it.place room)) v)

-- The three setters, by their iterator. The size of the string is enough fuel.
unfoldable pub set_query_by : AnyIter → Bytes → Url → Result Url
unfolding remove_query insert_params encoded_query
set_query_by it s u = do
  v ← (if is_empty s then remove_query u else ok u)
  w ← insert_params (length s + 1) 0 v.nparam_ it true v
  ok (set_decoded id_query (pct_decode_bytes_unchecked (encoded_query w)) w)

unfoldable pub set_query : Bytes → Url → Result Url
unfolding set_query_by plain_query_iter
set_query s u = set_query_by (plain_query_iter s) s u

unfoldable pub set_encoded_query : Bytes → Url → Result Url
unfolding set_query_by enc_query_iter
set_encoded_query s u = set_query_by (enc_query_iter s) s u

-- `set_query(pct_encoded_view)`
unfoldable pub set_query_view : PctEncodedView → Url → Result Url
unfolding set_query_by view_query_iter contents
set_query_view s u = elim (contents s) [
  | none ↦ err undefined
  | some t ↦ set_query_by (view_query_iter t) t u
]
