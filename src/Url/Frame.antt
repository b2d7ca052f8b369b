-- ===== src/Url/Frame.antt =====
-- What `resize_impl` does to the characters and to the table, for any range of parts.
use boost_url.Base.{
  ℕ, zero, suc, ◌+◌, ◌-◌, ◌≤◌, ◌<◌, ◌≡◌, refl, sym, ap, ◌∙◌, inl, inr, ◌&&◌, [], ◌++◌, arith, leb,
  ◌==◌, Bool-cases, leb→le, Bytes, ge→ltb, leb→gt, length, take, drop, replicate, length-append,
  length-replicate, take-append-drop, ok,
}
use boost_url.Base.Slices.{slice, write, shrunk, grown, length-slice}
use boost_url.Url.{
  id_end, pos_add, pos_sub, max_size, Table, offset, size, len_range, adjust, collapse, Url,
}
use boost_url.Url.Resize.{shrink_range, grow_range, resize_range}

-- The class invariant of the table: the offsets ascend, and the last is the size of the buffer.
pub record IsValid (u : Url) : Type 0 where
  pub ascend : (i j : ℕ) → i ≤ j → j ≤ id_end → offset u i ≤ offset u j
  pub full : size u ≡ length u.chars
  pub small : size u ≤ max_size

-- Everything but the characters and the offsets.
abbrev pub SameRest : Url → Url → Type 0
SameRest u v =
    (v.decoded_ ≡ u.decoded_)
    × (v.nseg_ ≡ u.nseg_)
    × (v.nparam_ ≡ u.nparam_)
    × (v.ip_addr_ ≡ u.ip_addr_)
    × (v.port_number_ ≡ u.port_number_)
    × (v.host_type_ ≡ u.host_type_)
    × (v.scheme_ ≡ u.scheme_)

-- `v` is `u` with the parts in [first, last) replaced by the characters `s`, which all belong to
-- `first`; nothing else of the characters changes, and the later parts move as a block.
pub record Spliced (u : Url) (first last : ℕ) (s : Bytes) (v : Url) : Type 0 where
  pub chars_are : v.chars ≡ take (offset u first) u.chars ++ (s ++ drop (offset u last) u.chars)
  pub before : (i : ℕ) → i ≤ first → offset v i ≡ offset u i
  pub within_range : (i : ℕ) → first < i → i < last → offset v i ≡ offset u first + length s
  pub after :
      (i : ℕ)
      → last ≤ i
      → i ≤ id_end
      → offset v i + offset u last ≡ offset u i + offset u first + length s
  pub rest : SameRest u v

-- The table after `collapse(first, last, p)` and `adjust(last, id_end, d)`.
abbrev moved : ℕ → ℕ → ℕ → ℕ → Table → Table
moved first last p d t = adjust last id_end d (collapse first last p t)

module _ (first last p d : ℕ) (t : Table) (h : first < last) where
  moved_before : (i : ℕ) → i ≤ first → moved first last p d t i ≡ t i
  unfolding adjust collapse
  moved_before i le = ground arith

  moved_within : (i : ℕ) → first < i → i < last → moved first last p d t i ≡ p
  unfolding adjust collapse
  moved_within i lt lt' = ground arith

  moved_after : (i : ℕ) → last ≤ i → i ≤ id_end → moved first last p d t i ≡ pos_add (t i) d
  unfolding adjust collapse
  moved_after i le le' = ground arith

pub offset-eq_offset_ : (u : Url) (i : ℕ) → 0 < i → offset u i ≡ u.offset_ i
offset-eq_offset_ u i h = ground arith

module _ {u : Url} (ok_u : IsValid u) where
  offset-le : (i : ℕ) → i ≤ id_end → offset u i ≤ length u.chars
  offset-le i h = omega (arith, ok_u.ascend i id_end h (omega arith), ok_u.full)

  pub len_range-eq :
      (first last : ℕ)
      → first ≤ last
      → last ≤ id_end
      → len_range u first last ≡ offset u last - offset u first
  unfolding len_range
  len_range-eq first last h k =
      omega (arith, ok_u.ascend first last h k, ok_u.ascend last id_end k (omega arith), ok_u.small)

  -- How the offsets of `v` follow from its table being `moved`.
  module _ (first last p d : ℕ) (v : Url) (h : first < last) (k : last ≤ id_end)
      (e : v.offset_ ≡ moved first last p d u.offset_) where
    offset-moved : (i : ℕ) → 0 < i → offset v i ≡ moved first last p d u.offset_ i
    offset-moved i pos = offset-eq_offset_ v i pos ∙ ap (λ t. t i) e

    before_at : (i : ℕ) → i ≤ first → offset v i ≡ offset u i
    before_at zero le = refl
    before_at (suc i) le =
        offset-moved (suc i) (omega arith)
        ∙ moved_before first last p d u.offset_ h (suc i) le
        ∙ sym (offset-eq_offset_ u (suc i) (omega arith))

    moved-Spliced :
        (s : Bytes)
        → p ≡ offset u first + length s
        → ((o : ℕ)
            → offset u last ≤ o
            → o ≤ size u
            → pos_add o d + offset u last ≡ o + offset u first + length s)
        → v.chars ≡ take (offset u first) u.chars ++ (s ++ drop (offset u last) u.chars)
        → SameRest u v
        → Spliced u first last s v
    moved-Spliced s at shift chars same = record {
      rest = same;
      chars_are = chars;
      before = before_at;
      within_range = λ i lt lt'.
          offset-moved i (omega arith) ∙ moved_within first last p d u.offset_ h i lt lt' ∙ at;
      after = λ i le le'.
          let mv : offset v i ≡ pos_add (offset u i) d =
            offset-moved i (omega arith)
            ∙ moved_after first last p d u.offset_ h i le le'
            ∙ ap (λ o. pos_add o d) (sym (offset-eq_offset_ u i (omega arith))) in
          rw mv (
            shift (offset u i) (ok_u.ascend last i le le')
              (ok_u.ascend i id_end le' (omega arith)));
    }

  pub shrink_range-Spliced :
      (first last m : ℕ)
      → first < last
      → last ≤ id_end
      → m ≤ offset u last - offset u first
      → Spliced u first last (slice (offset u first) m u.chars) (shrink_range first last m u)
  unfolding shrink_range
  shrink_range-Spliced first last m h k l =
      let f_l = ok_u.ascend first last (omega arith) k in
      let l_e = offset-le last k in
      let size_s = length-slice (offset u first) m u.chars (omega arith) in
      let n0 = len_range-eq first last (omega arith) k in
      let small = ok_u.small in
      let full = ok_u.full in
      moved-Spliced first last (pos_sub (offset u last) (len_range u first last - m))
        (pos_sub 0 (len_range u first last - m)) (shrink_range first last m u) h k refl
        (slice (offset u first) m u.chars) (rw (n0, size_s) (omega arith))
        (λ o ge le. rw (n0, size_s) (omega arith))
        (rw n0 (shrunk (offset u first) (offset u last) m u.chars (omega arith) (offset-le last k)))
        (refl, refl, refl, refl, refl, refl, refl)

  grow_range-Spliced :
      (first last m : ℕ)
      → first < last
      → last ≤ id_end
      → offset u last - offset u first ≤ m
      → size u + m ≤ max_size + (offset u last - offset u first)
      → (s : Bytes) × (v : Url) × (grow_range first last m u ≡ ok v)
        × (length s ≡ m)
        × Spliced u first last s v
  unfolding grow_range
  grow_range-Spliced first last m h k l fits =
      let f_l = ok_u.ascend first last (omega arith) k in
      let l_e = offset-le last k in
      let n0 = len_range-eq first last (omega arith) k in
      let small = ok_u.small in
      let full = ok_u.full in
      let g = m - (offset u last - offset u first) in
      let buf = u.chars ++ replicate g 0 in
      let size_s : length (slice (offset u first) m buf) ≡ m =
        length-slice (offset u first) m buf
          (omega (arith, length-append u.chars (replicate g 0), length-replicate g (zero))) in
      let v = record u {
        chars = write buf (offset u last + g) (drop (offset u last) u.chars);
        offset_ = moved first last (pos_add (offset u last) g) g u.offset_;
      } in
      (
        slice (offset u first) m buf,
        v,
        rw (n0, ge→ltb {a = max_size} {b = size u + g} (omega arith)),
        size_s,
        moved-Spliced first last (pos_add (offset u last) g) g v h k refl
            (slice (offset u first) m buf) (rw size_s (omega arith))
            (λ o ge le. rw size_s (omega arith))
            (grown (offset u first) (offset u last) m u.chars (replicate g 0) f_l (omega arith) l_e
              (length-replicate g 0))
            (refl, refl, refl, refl, refl, refl, refl),
      )

noop-Spliced :
    {u : Url} (first last : ℕ)
    → IsValid u
    → first < last
    → last ≤ id_end
    → offset u last - offset u first ≡ 0
    → Spliced u first last [] u
noop-Spliced {u} first last valid h k none' =
    let f_l = valid.ascend first last (omega arith) k in
    record {
      chars_are =
          sym (take-append-drop (offset u first) u.chars)
          ∙ ap (λ o. take (offset u first) u.chars ++ drop o u.chars) (omega arith);
      before = λ i le. refl;
      within_range = λ i lt lt'. omega (
        arith,
        valid.ascend first i (omega arith) (omega arith),
        valid.ascend i last (omega arith) k,
      );
      after = λ i le le'. omega arith;
      rest = (refl, refl, refl, refl, refl, refl, refl);
    }

-- `resize_impl` throws nothing while the new size stays within `max_size`; the range then has the
-- size asked for, with contents that its callers write, and all else is unchanged.
pub resize_range-Spliced :
    {u : Url} (first last m : ℕ)
    → IsValid u
    → first < last
    → last ≤ id_end
    → size u + m ≤ max_size + (offset u last - offset u first)
    → (s : Bytes) × (v : Url) × (resize_range first last m u ≡ ok v)
      × (length s ≡ m)
      × Spliced u first last s v
unfolding resize_range
resize_range-Spliced {u} first last m valid h k fits =
    let n0 = len_range-eq valid first last (omega arith) k in
    elim (Bool-cases (leb m (offset u last - offset u first))) [
      | inr more ↦
          let (s, v, e, l, p) =
            grow_range-Spliced valid first last m h k (omega (arith, leb→gt more)) fits in
          (s, v, rw (n0, more) (ground (arith, e, leb→gt more)), l, p)
      | inl less ↦ elim (Bool-cases (m == 0 && offset u last - offset u first == 0)) [
        | inl both ↦
            ([], u, rw (n0, both), ground arith, noop-Spliced first last valid h k (ground arith))
        | inr some' ↦ (
          slice (offset u first) m u.chars,
          shrink_range first last m u,
          rw (n0, some', less),
          length-slice (offset u first) m u.chars (
              omega (
                arith,
                leb→le m _ less,
                valid.ascend first last (omega arith) k,
                valid.ascend last id_end k (omega arith),
                valid.full,
              )),
          shrink_range-Spliced valid first last m h k (leb→le m _ less),
        )
      ]
    ]
