-- ===== src/Url/Resized.antt =====
-- A part of which `edit_params` or `edit_segments` replaces everything: what is behind it is moved, and the
-- table is set to the new size.
-- A range [p, q) of a buffer gets the size `n`.
use boost_url.Base.{
  ℕ, zero, suc, ◌+◌, ◌-◌, ◌≤◌, ◌<◌, ◌≡◌, refl, sym, ap, ◌∙◌, [], ◌++◌, append_assoc, append-nil,
  arith, ltb, if◌then◌else◌, Bytes, length, take, drop, replicate, length-append, length-replicate,
  length-take, length-drop,
}
use boost_url.Base.Slices.{slice, write, take-left, take-all, take-drop, length-slice}
use boost_url.Url.{id_end, pos_add, pos_sub, offset, size, len, adjust, put, Url}
use boost_url.Url.Frame.{offset-eq_offset_, IsValid}
use boost_url.Url.Parts.{len-eq, Edited-put, Edited}
use boost_url.Url.Replace.{Fits}
use boost_url.Url.SchemePart.Laws.{adjust-in, adjust-below}
use mathlib.Core.Path.{subst}

resized :
    (p q n : ℕ) (buf new : Bytes)
    → p ≤ q
    → q ≤ length buf
    → length new ≡ n - (q - p)
    → take (length buf + n - (q - p)) (write (buf ++ new) (p + n) (drop q buf))
      ≡ take p buf ++ (slice p n (buf ++ new) ++ drop q buf)
resized p q n buf new h k e =
    let front = take (p + n) (buf ++ new) in
    let rest = drop (p + n + length (drop q buf)) (buf ++ new) in
    let m = length buf + n - (q - p) in
    let size_front : length front ≡ p + n =
      length-take (p + n) (buf ++ new) (omega (arith, length-append buf new, h, k, e)) in
    let sum = length-append front (drop q buf) in
    let size_tail = length-drop q buf in
    ap (take m) (sym (append_assoc front (drop q buf) rest))
    ∙ take-left m (front ++ drop q buf) rest (omega (arith, sum, size_front, size_tail, h, k))
    ∙ take-all m (front ++ drop q buf) (omega (arith, sum, size_front, size_tail, h, k))
    ∙ ap (λ l. l ++ drop q buf) (take-drop p n (buf ++ new))
    ∙ ap (λ l. (l ++ slice p n (buf ++ new)) ++ drop q buf)
        (take-left p buf new (omega (arith, h, k)))
    ∙ append_assoc (take p buf) (slice p n (buf ++ new)) (drop q buf)

-- The part `first` gets `n` characters; the length `m` that is set is `n`.
module _ (u : Url) (first n m : ℕ) (valid : IsValid u) (up : first < id_end)
    (fits : Fits u first (suc first) n) (m_is : m ≡ n) where
  abbrev p : ℕ
  p = offset u first

  abbrev q : ℕ
  q = offset u (suc first)

  abbrev added : ℕ
  added = if ltb (q - p) n then n - (q - p) else 0

  abbrev pub edited : Url
  edited = record u {
    chars =
        take (size u + n - (q - p)) (write (u.chars ++ replicate added 0) (p + n) (drop q u.chars));
    offset_ = adjust (suc first) id_end (pos_sub m (len u first)) u.offset_;
  }

  added_is : added ≡ n - (q - p)
  added_is = ground arith

  edited-after : (i : ℕ) → suc first ≤ i → i ≤ id_end → offset edited i + q ≡ offset u i + p + n
  edited-after i above high =
      let shift = pos_sub m (len u first) in
      let size_len : len u first ≡ q - p =
        len-eq valid first (omega (arith, up)) ∙ ap (λ j. offset u j - p) (omega arith) in
      let here = offset-eq_offset_ u i (omega (arith, above)) in
      let moved : offset edited i ≡ pos_add (u.offset_ i) shift =
        offset-eq_offset_ edited i (omega (arith, above))
        ∙ adjust-in (suc first) id_end shift i u.offset_ above high in
      rw moved (
        omega (
          arith,
          size_len,
          here,
          fits,
          m_is,
          valid.small,
          valid.ascend first (suc first) (omega arith) (omega (arith, up)),
          valid.ascend (suc first) i above high,
          valid.ascend i id_end high (omega arith),
        ))

  edited-before : (i : ℕ) → i ≤ first → offset edited i ≡ offset u i
  edited-before zero h = refl
  edited-before (suc i) h =
      offset-eq_offset_ edited (suc i) (omega arith)
      ∙ adjust-below (suc first) id_end (pos_sub m (len u first)) (suc i) u.offset_
          (omega (arith, h))
      ∙ sym (offset-eq_offset_ u (suc i) (omega arith))

  pub edited-Edited : (s : Bytes) × (length s ≡ n) × Edited u first (suc first) s edited
  edited-Edited =
      let step = valid.ascend first (suc first) (omega arith) (omega (arith, up)) in
      let top = valid.ascend (suc first) id_end (omega (arith, up)) (omega arith) in
      let new = replicate added 0 in
      let size_new : length new ≡ n - (q - p) = length-replicate added 0 ∙ added_is in
      let inside : p + n ≤ length (u.chars ++ new) =
        omega (arith, length-append u.chars new, size_new, step, top, valid.full) in
      let size_s = length-slice p n (u.chars ++ new) inside in
      (
        slice p n (u.chars ++ new),
        size_s,
        record {
          chars_are =
              ap (λ e. take (e + n - (q - p)) (write (u.chars ++ new) (p + n) (drop q u.chars)))
                valid.full
              ∙ resized p q n u.chars new step (omega (arith, top, valid.full)) size_new;
          before = edited-before;
          after = λ i le le'. omega (arith, edited-after i le le', size_s);
        },
      )

  -- The text is written into that room.
  pub edited-put :
      (text : Bytes) → length text ≡ n → Edited u first (suc first) text (put p text edited)
  edited-put text size_text =
      let (old, size_old, edit) = edited-Edited in
      subst (λ t. Edited u first (suc first) t (put p text edited)) (append-nil text)
        (Edited-put p [] old [] text valid (omega arith) (omega (arith, up)) edit
          (sym (append-nil old)) (omega arith) (omega (arith, size_old, size_text)))
