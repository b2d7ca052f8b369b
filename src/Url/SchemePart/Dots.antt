-- ===== src/Url/SchemePart/Dots.antt =====
-- The moves by which `remove_scheme` puts "./" in front of a path.
use boost_url.Base.{
  ℕ, zero, suc, ◌+◌, ◌-◌, ◌≤◌, ◌≡◌, refl, sym, ap, ◌∙◌, [], ◌++◌, append_assoc, arith, Bytes, codes,
  length, take, drop, length-append, take-append-drop, length-take, length-drop,
}
use boost_url.Base.Slices.{
  slice, write, take-left, slice-right, drop-drop, take-all, write-replace, length-slice,
}
use boost_url.Url.{
  id_scheme, id_user, id_path, id_query, id_end, pos_add, pos_sub, offset, size, len, get, adjust,
  Url,
}
use boost_url.Url.Frame.{offset-eq_offset_, IsValid}
use boost_url.Url.Parts.{len-eq, get-eq, length-get, Edited}
use boost_url.Url.Replace.{Replaced, Edited-Replaced}
use boost_url.Url.SchemePart.{dot_for_scheme}
use boost_url.Url.SchemePart.Laws.{
  Rescheme, two'-Rescheme, drop-slice, adjust-in, adjust-above, adjust-below,
}

-- The three moves of `remove_scheme`: `xs` and `ps` go to the left, with "./" between them.
dots_between :
    (xs ys ps : Bytes)
    → 2 ≤ length ys
    → take
        (length xs + 2 + length ps)
        (write (write (xs ++ (ys ++ ps)) (length xs + 2) ps) (length xs) (codes "./"))
      ≡ xs ++ (codes "./" ++ ps)
dots_between xs ys ps h =
    let m = length ps in
    let two = take 2 ys in
    let more = drop 2 ys ++ ps in
    let size_two : length two ≡ 2 = length-take 2 ys h in
    let size_more : m ≤ length more = omega (arith, length-append (drop 2 ys) ps) in
    let whole = length-append xs (codes "./" ++ ps) in
    let divided : xs ++ (ys ++ ps) ≡ (xs ++ two) ++ (take m more ++ drop m more) =
      ap (λ t. xs ++ (t ++ ps)) (sym (take-append-drop 2 ys))
      ∙ ap (◌++◌ xs) (append_assoc two (drop 2 ys) ps)
      ∙ ap (λ t. xs ++ (two ++ t)) (sym (take-append-drop m more))
      ∙ sym (append_assoc xs two (take m more ++ drop m more)) in
    ap (λ b. take (length xs + 2 + m) (write (write b (length xs + 2) ps) (length xs) (codes "./")))
      divided
    ∙ ap (λ b. take (length xs + 2 + m) (write b (length xs) (codes "./")))
        (write-replace (length xs + 2) (xs ++ two) (take m more) (drop m more) ps
            (omega (arith, length-append xs two, size_two)) (sym (length-take m more size_more))
          ∙ append_assoc xs two (ps ++ drop m more))
    ∙ ap (take (length xs + 2 + m))
        (write-replace (length xs) xs two (ps ++ drop m more) (codes "./") refl (sym size_two))
    ∙ ap (take (length xs + 2 + m)) (sym (append_assoc xs (codes "./" ++ ps) (drop m more)))
    ∙ take-left (length xs + 2 + m) (xs ++ (codes "./" ++ ps)) (drop m more) (omega (arith, whole))
    ∙ take-all (length xs + 2 + m) (xs ++ (codes "./" ++ ps)) (omega (arith, whole))

-- The same on the buffer: `n` characters in front are removed, and "./" is put at `p`.
dots_moved :
    (n p k e size : ℕ) (buf : Bytes)
    → 2 ≤ n
    → n ≤ p
    → p ≤ e
    → e ≡ length buf
    → k ≡ p - n
    → size ≡ e - n + 2
    → take size (
        write
          (write
            (write buf 0 (slice n (p - n) buf))
            (p - (n - 2))
            (slice p (e - p) (write buf 0 (slice n (p - n) buf))))
          k
          (codes "./"))
      ≡ slice n (p - n) buf ++ (codes "./" ++ drop p buf)
dots_moved n p k e size buf two n_p p_e e_is k_is size_is =
    let xs = slice n (p - n) buf in
    let ps = drop p buf in
    let ys = drop (p - n) (take p buf) in
    let size_xs : length xs ≡ p - n = length-slice n (p - n) buf (omega (arith, n_p, p_e, e_is)) in
    let size_head : length (take p buf) ≡ p = length-take p buf (omega (arith, p_e, e_is)) in
    let size_ys : length ys ≡ n = omega (arith, length-drop (p - n) (take p buf), size_head, n_p) in
    let size_ps : length ps ≡ e - p = omega (arith, length-drop p buf, e_is) in
    let first : write buf 0 xs ≡ xs ++ (ys ++ ps) =
      ap (λ m. xs ++ drop m buf) (let m_is : 0 + length xs ≡ p - n = omega (arith, size_xs) in m_is)
      ∙ ap (◌++◌ xs) (drop-slice (p - n) p buf (omega arith) (omega (arith, p_e, e_is))) in
    let second : slice p (e - p) (xs ++ (ys ++ ps)) ≡ ps =
      ap (slice p (e - p)) (sym (append_assoc xs ys ps))
      ∙ slice-right p (e - p) 0 (xs ++ ys) ps
          (omega (arith, length-append xs ys, size_xs, size_ys, n_p))
      ∙ take-all (e - p) ps (omega (arith, size_ps)) in
    let at : p - (n - 2) ≡ length xs + 2 = omega (arith, size_xs, two, n_p) in
    let end : size ≡ length xs + 2 + length ps =
      omega (arith, size_is, size_xs, size_ps, n_p, p_e) in
    let start : k ≡ length xs = omega (arith, k_is, size_xs) in
    rw (first, second, at, end, start) (dots_between xs ys ps (omega (arith, two, size_ys)))

-- The URL without its scheme, as a step on the way.
without_scheme : Url → Url
without_scheme u = record u {
  chars = drop (offset u id_user) u.chars;
  offset_ = λ i. u.offset_ i - offset u id_user;
}

without_scheme-offset :
    (u : Url)
    → IsValid u
    → (i : ℕ) → id_user ≤ i
    → i ≤ id_end
    → offset (without_scheme u) i ≡ offset u i - offset u id_user
unfolding without_scheme
without_scheme-offset u valid i h k =
    offset-eq_offset_ (without_scheme u) i (omega (arith, h))
    ∙ ap (λ o. o - offset u id_user) (sym (offset-eq_offset_ u i (omega (arith, h))))

without_scheme-Replaced : (u : Url) → IsValid u → Replaced u id_scheme [] (without_scheme u)
without_scheme-Replaced u valid =
    Edited-Replaced id_scheme valid (omega arith)
      (record {
        chars_are = unfold without_scheme in refl;
        before = λ i le.
            ap (offset (without_scheme u)) (zero_of i le) ∙ sym (ap (offset u) (zero_of i le));
        after = λ i le le'.
            omega (arith, without_scheme-offset u valid i le le', valid.ascend id_user i le le');
      })
      (omega (arith, valid.small, valid.ascend id_scheme id_user (omega arith) (omega arith)))
  where
    zero_of : (i : ℕ) → i ≤ 0 → i ≡ 0
    zero_of i h = omega (arith, h)

module _ (u : Url) (valid : IsValid u) (two : 2 ≤ offset u id_user) where
  pub n_is : len u id_scheme ≡ offset u id_user
  n_is = omega (arith, len-eq valid id_scheme (omega arith))

  dot_for_scheme-near :
      (i : ℕ)
      → id_user ≤ i
      → i ≤ id_path
      → offset (dot_for_scheme u) i ≡ offset u i - offset u id_user
  unfolding dot_for_scheme
  dot_for_scheme-near i h k =
      let n_i = valid.ascend id_user i h (omega (arith, k)) in
      let i_e = valid.ascend i id_end (omega (arith, k)) (omega arith) in
      offset-eq_offset_ (dot_for_scheme u) i (omega (arith, h))
      ∙ adjust-below id_query id_end (pos_sub 0 (len u id_scheme - 2)) i
          (adjust id_user id_path (pos_sub 0 (len u id_scheme)) u.offset_) (omega (arith, k))
      ∙ adjust-in id_user id_path (pos_sub 0 (len u id_scheme)) i u.offset_ h k
      ∙ omega (arith, n_is, n_i, i_e, offset-eq_offset_ u i (omega (arith, h)), valid.small)

  dot_for_scheme-far :
      (i : ℕ)
      → id_query ≤ i
      → i ≤ id_end
      → offset (dot_for_scheme u) i ≡ offset u i - offset u id_user + 2
  unfolding dot_for_scheme
  dot_for_scheme-far i h k =
      let n_i = valid.ascend id_user i (omega (arith, h)) k in
      let i_e = valid.ascend i id_end k (omega arith) in
      offset-eq_offset_ (dot_for_scheme u) i (omega (arith, h))
      ∙ adjust-in id_query id_end (pos_sub 0 (len u id_scheme - 2)) i
          (adjust id_user id_path (pos_sub 0 (len u id_scheme)) u.offset_) h k
      ∙ ap (λ o. pos_add o (pos_sub 0 (len u id_scheme - 2)))
          (adjust-above id_user id_path (pos_sub 0 (len u id_scheme)) i u.offset_
            (omega (arith, h)))
      ∙ omega (arith, n_is, n_i, i_e, two, offset-eq_offset_ u i (omega (arith, h)), valid.small)

  dot_for_scheme-chars :
      (dot_for_scheme u).chars
      ≡ slice (offset u id_user) (offset u id_path - offset u id_user) u.chars
        ++ (codes "./" ++ drop (offset u id_path) u.chars)
  unfolding dot_for_scheme
  dot_for_scheme-chars =
      let n_p = valid.ascend id_user id_path (omega arith) (omega arith) in
      dots_moved (len u id_scheme) (offset u id_path) (offset (dot_for_scheme u) id_path) (size u)
        (size (dot_for_scheme u)) u.chars (omega (arith, n_is, two)) (omega (arith, n_is, n_p))
        (valid.ascend id_path id_end (omega arith) (omega arith)) valid.full
        (omega (arith, n_is, dot_for_scheme-near id_path (omega arith) (omega arith)))
        (omega (arith, n_is, dot_for_scheme-far id_end (omega arith) (omega arith)))
      ∙ ap
          (λ n.
            slice n (offset u id_path - n) u.chars
            ++ (codes "./" ++ drop (offset u id_path) u.chars))
          n_is

  dot_for_scheme-Edited :
      Edited (without_scheme u) id_path id_query (codes "./" ++ get u id_path) (dot_for_scheme u)
  unfolding without_scheme
  dot_for_scheme-Edited =
      let n = offset u id_user in
      let p = offset u id_path in
      let q = offset u id_query in
      let size_path = length-get valid id_path (omega arith) in
      let n_p = valid.ascend id_user id_path (omega arith) (omega arith) in
      let p_q = valid.ascend id_path id_query (omega arith) (omega arith) in
      let q_e = valid.ascend id_query id_end (omega arith) (omega arith) in
      let path_at = without_scheme-offset u valid id_path (omega arith) (omega arith) in
      let query_at = without_scheme-offset u valid id_query (omega arith) (omega arith) in
      let tail : drop p u.chars ≡ get u id_path ++ drop (q - n) (drop n u.chars) =
        sym (take-append-drop (q - p) (drop p u.chars))
        ∙ ap (λ t. t ++ drop (q - p) (drop p u.chars)) (sym (get-eq valid id_path (omega arith)))
        ∙ ap (◌++◌ (get u id_path)) (
            drop-drop (q - p) p u.chars
            ∙ ap (λ k. drop k u.chars)
                (let k_is : p + (q - p) ≡ n + (q - n) = omega (arith, p_q, n_p) in k_is)
            ∙ sym (drop-drop (q - n) n u.chars)) in
      record {
        chars_are =
            dot_for_scheme-chars ∙ ap (λ t. slice n (p - n) u.chars ++ (codes "./" ++ t)) tail;
        before = near;
        after = λ i le le'. omega (
          arith,
          dot_for_scheme-far i le le',
          query_at,
          path_at,
          size_path,
          n_p,
          p_q,
          two,
          without_scheme-offset u valid i (omega (arith, le)) le',
          valid.ascend id_query i le le',
        );
      }
    where
      near : (i : ℕ) → i ≤ id_path → offset (dot_for_scheme u) i ≡ offset (without_scheme u) i
      near zero h = refl
      near (suc i) h =
          dot_for_scheme-near (suc i) (omega arith) h
          ∙ sym (without_scheme-offset u valid (suc i) (omega arith) (omega (arith, h)))

  pub dot_for_scheme-Rescheme : Rescheme u [] (codes "./" ++ get u id_path) (dot_for_scheme u)
  dot_for_scheme-Rescheme =
      let removed = without_scheme-Replaced u valid in
      let size_path = length-get valid id_path (omega arith) in
      let path_at = without_scheme-offset u valid id_path (omega arith) (omega arith) in
      let query_at = without_scheme-offset u valid id_query (omega arith) (omega arith) in
      let end_at = without_scheme-offset u valid id_end (omega arith) (omega arith) in
      two'-Rescheme u (without_scheme u) (dot_for_scheme u) [] (codes "./" ++ get u id_path) removed
        (Edited-Replaced id_path (removed.0) (omega arith) dot_for_scheme-Edited (
          omega (
            arith,
            size_path,
            path_at,
            query_at,
            end_at,
            two,
            valid.small,
            valid.ascend id_user id_path (omega arith) (omega arith),
            valid.ascend id_path id_query (omega arith) (omega arith),
            valid.ascend id_query id_end (omega arith) (omega arith),
          )))
