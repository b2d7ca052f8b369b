-- ===== src/Url/SchemePart/Laws.antt =====
-- What the scheme setters do to the parts of a URL.
-- `v` has the scheme part `s` and the path `p`, and every other part as in `u`.
use boost_url.Base.{
  ℕ, zero, suc, ◌+◌, ◌-◌, ◌≤◌, ◌<◌, ◌≡◌, refl, sym, ap, ◌∙◌, ◌≢◌, inl, inr, Bool, true, false, not,
  ◌&&◌, [], ◌∷◌, ◌++◌, arith, ltb, ◌==◌, if◌then◌else◌, Bool-cases, Bytes, codes, ltb→ge, ge→ltb,
  length, take, drop, take-append-drop, length-take, length-drop, equal, ok,
}
use boost_url.Base.Slices.{slice, drop-left, slice-take, drop-drop}
use boost_url.Grammar.{parse_all}
use boost_url.Rfc.Userinfo.{scheme_rule, SchemeValue}
use boost_url.Scheme.{string_to_scheme, Scheme}
use boost_url.Url.{
  id_scheme, id_user, id_path, id_query, id_end, pos_add, pos_sub, max_size, Table, offset, size,
  len, get, adjust, set_size, put, Url,
}
use boost_url.Url.Frame.{offset-eq_offset_, resize_range-Spliced, IsValid}
use boost_url.Url.Parts.{len-eq, get-eq, length-get}
use boost_url.Url.Path.{path_prefix}
use boost_url.Url.Path.Laws.{HasSegments, segment-one}
use boost_url.Url.Replace.{Replaced, Edited-Replaced, Replaced-rest, fill-Replaced}
use boost_url.Url.Resize.{resize_part}
use boost_url.Url.SchemePart.{has_dot, drop_dot, set_scheme_impl, set_scheme}
use boost_url.Url.View.{scheme, path}
use mathlib.Core.Path.{subst}

abbrev pub Rescheme : Url → Bytes → Bytes → Url → Type 0
Rescheme u s p v =
    IsValid v
    × (get v id_scheme ≡ s)
    × (get v id_path ≡ p)
    × ((i : ℕ) → i ≢ id_scheme → i ≢ id_path → i < id_end → get v i ≡ get u i)

pub Replaced-Rescheme :
    (u v : Url) (s : Bytes) → Replaced u id_scheme s v → Rescheme u s (get u id_path) v
Replaced-Rescheme u v s (valid, here, others) =
    (valid, here, others id_path (omega arith) (omega arith), λ i ne ne' lt. others i ne lt)

-- First the path, then the scheme; and the other way.
two-Rescheme :
    (u w v : Url) (s p : Bytes)
    → Replaced u id_path p w
    → Replaced w id_scheme s v
    → Rescheme u s p v
two-Rescheme u w v s p (ok_w, path, others) (ok_v, scheme, others') = (
  ok_v,
  scheme,
  others' id_path (omega arith) (omega arith) ∙ path,
  λ i ne ne' lt. others' i ne lt ∙ others i ne' lt,
)

pub two'-Rescheme :
    (u w v : Url) (s p : Bytes)
    → Replaced u id_scheme s w
    → Replaced w id_path p v
    → Rescheme u s p v
two'-Rescheme u w v s p (ok_w, scheme, others) (ok_v, path, others') = (
  ok_v,
  others' id_scheme (omega arith) (omega arith) ∙ scheme,
  path,
  λ i ne ne' lt. others' i ne' lt ∙ others i ne lt,
)

pub drop-slice :
    (k m : ℕ) (xs : Bytes) → k ≤ m → m ≤ length xs → drop k xs ≡ drop k (take m xs) ++ drop m xs
drop-slice k m xs h l =
    ap (drop k) (sym (take-append-drop m xs))
    ∙ drop-left k (take m xs) (drop m xs) (omega (arith, h, length-take m xs l))

module _ (first last n i : ℕ) (t : Table) where
  pub adjust-in : first ≤ i → i ≤ last → adjust first last n t i ≡ pos_add (t i) n
  unfolding adjust
  adjust-in h k = ground arith

  pub adjust-above : last < i → adjust first last n t i ≡ t i
  unfolding adjust
  adjust-above h = ground arith

  pub adjust-below : i < first → adjust first last n t i ≡ t i
  unfolding adjust
  adjust-below h = ground arith

drop_dot-offset :
    (u : Url)
    → IsValid u
    → 2 ≤ length (get u id_path)
    → (i : ℕ) → id_query ≤ i
    → i ≤ id_end
    → offset (drop_dot u) i + 2 ≡ offset u i
unfolding drop_dot set_size
drop_dot-offset u valid two i low high =
    let shift = pos_sub (pos_sub (len u id_path) 2) (len u id_path) in
    let n = len-eq valid id_path (omega arith) in
    let size_path = length-get valid id_path (omega arith) in
    let q_i = valid.ascend id_query i low high in
    let i_e = valid.ascend i id_end high (omega arith) in
    let here = offset-eq_offset_ u i (omega (arith, low)) in
    let moved : offset (drop_dot u) i ≡ pos_add (u.offset_ i) shift =
      offset-eq_offset_ (drop_dot u) i (omega (arith, low))
      ∙ adjust-in id_query id_end shift i u.offset_ low high in
    rw moved (omega (arith, n, two, size_path, q_i, i_e, here, valid.small))

drop_dot-before : (u : Url) (i : ℕ) → i ≤ id_path → offset (drop_dot u) i ≡ offset u i
unfolding drop_dot set_size
drop_dot-before u zero h = refl
drop_dot-before u (suc i) h =
    offset-eq_offset_ (drop_dot u) (suc i) (omega arith)
    ∙ adjust-below id_query id_end (pos_sub (pos_sub (len u id_path) 2) (len u id_path)) (suc i)
        u.offset_ (omega (arith, h))
    ∙ sym (offset-eq_offset_ u (suc i) (omega arith))

drop_dot-Replaced :
    (u : Url)
    → IsValid u
    → 2 ≤ length (get u id_path)
    → Replaced u id_path (drop 2 (get u id_path)) (drop_dot u)
unfolding drop_dot set_size adjust
drop_dot-Replaced u valid two =
    let p = offset u id_path in
    let q = offset u id_query in
    let path = get u id_path in
    let size_path = length-get valid id_path (omega arith) in
    let p_q = valid.ascend id_path id_query (omega arith) (omega arith) in
    let q_e = valid.ascend id_query id_end (omega arith) (omega arith) in
    let here = drop_dot-offset u valid two in
    let tail : drop (p + 2) u.chars ≡ drop 2 path ++ drop q u.chars =
      sym (drop-drop 2 p u.chars)
      ∙ drop-slice 2 (q - p) (drop p u.chars) (omega (arith, two, size_path))
          (omega (arith, length-drop p u.chars, q_e, valid.full))
      ∙ ap (λ t. drop 2 t ++ drop (q - p) (drop p u.chars))
          (sym (get-eq valid id_path (omega arith)))
      ∙ ap (◌++◌ (drop 2 path))
          (drop-drop (q - p) p u.chars ∙ ap (λ k. drop k u.chars) (omega (arith, p_q))) in
    Edited-Replaced id_path valid (omega arith)
      (record {
        chars_are = ap (◌++◌ (take p u.chars)) tail;
        before = drop_dot-before u;
        after = λ i le le'. omega (
          arith,
          here i le le',
          length-drop 2 path,
          size_path,
          two,
          p_q,
          valid.ascend id_query i le le',
        );
      })
      (omega (arith, length-drop 2 path, size_path, two, p_q, q_e, valid.small))

-- `put` of a scheme and its ':' into the part that was resized for them.
fill_scheme :
    (s : Bytes) (id : Scheme) (u : Url)
    → IsValid u
    → size u + (length s + 1) ≤ max_size
    → (w : Url) × (resize_part id_scheme (length s + 1) u ≡ ok w)
      × Replaced u id_scheme
          (s ++ codes ":")
          (record (put (length s) (b':' ∷ []) (put 0 s w)) { scheme_ = id })
unfolding resize_part
fill_scheme s id u valid fits =
    let (old, w, e, size_old, spliced) =
      resize_range-Spliced id_scheme id_user (length s + 1) valid (omega arith) (omega arith)
        (omega (arith, fits)) in
    let filled =
      fill-Replaced id_scheme s (b':' ∷ []) valid (omega arith) spliced size_old
        (omega (arith, fits)) in
    let start : 0 + length s ≡ length s = omega arith in
    (
      w,
      e,
      subst
          (λ k.
            Replaced u id_scheme (s ++ codes ":")
              (record (put k (b':' ∷ []) (put 0 s w)) { scheme_ = id }))
          start (Replaced-rest u _ id_scheme _ _ _ _ _ _ _ _ filled),
    )

dot-prefix : (s : Bytes) → equal (take 2 s) (codes "./") ≡ true → path_prefix s ≡ 2
unfolding path_prefix
dot-prefix [] h = cc
dot-prefix (c ∷ []) h = ground (arith, h)
dot-prefix (c ∷ d ∷ []) h = ground (arith, h)
dot-prefix (c ∷ d ∷ e ∷ s) h = ground (arith, h)

dot-length : (s : Bytes) → equal (take 2 s) (codes "./") ≡ true → 2 ≤ length s
dot-length [] h = cc
dot-length (c ∷ []) h = ground (arith, h)
dot-length (c ∷ d ∷ s) h = omega arith

-- A path of segments that starts with "./".
abbrev pub dotted : Url → Bool
dotted u = not (u.nseg_ == 0) && equal (take 2 (get u id_path)) (codes "./")

pub front-path :
    {u : Url}
    → IsValid u
    → (n : ℕ) → n ≤ length (get u id_path)
    → slice (offset u id_path) n u.chars ≡ take n (get u id_path)
front-path {u} valid n h =
    sym (
      slice-take 0 n (offset u id_query - offset u id_path) (drop (offset u id_path) u.chars)
        (omega (arith, h, length-get valid id_path (omega arith))))
    ∙ ap (take n) (sym (get-eq valid id_path (omega arith)))

has_dot-dotted : (u : Url) → IsValid u → HasSegments u → has_dot u ≡ ok (dotted u)
unfolding has_dot
has_dot-dotted u valid many =
    let path = get u id_path in
    elim (Bool-cases (u.nseg_ == 0)) [
      | inl none' ↦ rw none' refl
      | inr some' ↦
          let (next, e, first, prefix, last, _) = segment-one u valid many some' in
          elim (Bool-cases (ltb next (offset u id_path + 2))) [
            | inl short ↦ elim (Bool-cases (equal (take 2 path) (codes "./"))) [
              | inl dots ↦ absurd (ground (arith, short, prefix, dot-prefix path dots))
              | inr other ↦ rw (some', e, short, other) refl
            ]
            | inr long ↦
                let two : 2 ≤ length path =
                  omega
                    (arith, ltb→ge {a = next} long, last, length-get valid id_path (omega arith)) in
                rw (some', e, long) (ap (λ t. ok (equal t (codes "./"))) (front-path valid 2 two))
          ]
    ]

-- `set_scheme` of a string that is a scheme, on a valid table, for a path of segments and while the result
-- fits, throws nothing: the scheme part is then the string and a ':', a prefix "./" of the path is removed,
-- every other part keeps its characters, the table stays valid, and the id is that of the string.
pub set_scheme_lem :
    (s : Bytes) (u : Url) (value : SchemeValue)
    → IsValid u
    → HasSegments u
    → parse_all scheme_rule s ≡ ok value
    → size u + (length s + 1) ≤ max_size
    → (v : Url) × (set_scheme s u ≡ ok v)
      × Rescheme u (s ++ codes ":") (if dotted u then drop 2 (get u id_path) else get u id_path) v
      × (v.scheme_ ≡ string_to_scheme s)
unfolding set_scheme set_scheme_impl
set_scheme_lem s u value valid many parsed fits =
    let dot = has_dot-dotted u valid many in
    elim (Bool-cases (dotted u)) [
      | inr no_dots ↦
          let (w, e, filled) = fill_scheme s (string_to_scheme s) u valid fits in
          (
            record (put (length s) (b':' ∷ []) (put 0 s w)) { scheme_ = string_to_scheme s },
            rw (parsed, dot, no_dots, e) refl,
            rw no_dots (Replaced-Rescheme u _ (s ++ codes ":") filled),
            refl,
          )
      | inl dots ↦
          let path_dots : equal (take 2 (get u id_path)) (codes "./") ≡ true =
            ground (arith, dots) in
          let two = dot-length (get u id_path) path_dots in
          let removed = drop_dot-Replaced u valid two in
          let less = drop_dot-offset u valid two id_end (omega arith) (omega arith) in
          let (w, e, filled) =
            fill_scheme s (string_to_scheme s) (drop_dot u) (removed.0)
              (omega (arith, fits, less)) in
          let small : ltb max_size (pos_sub (size u + length s + 1) 2) ≡ false =
            ge→ltb {a = max_size} (omega (arith, fits, less)) in
          (
            record (put (length s) (b':' ∷ []) (put 0 s w)) { scheme_ = string_to_scheme s },
            rw (parsed, dot, dots, small, e) refl,
            rw dots (
                two-Rescheme u (drop_dot u) _ (s ++ codes ":") (drop 2 (get u id_path)) removed
                  filled),
            refl,
          )
    ]
