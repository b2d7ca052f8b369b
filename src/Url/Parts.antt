-- ===== src/Url/Parts.antt =====
-- What an edit of a range of parts means for each part's characters.
use boost_url.Base.{
  ℕ, ◌+◌, ◌-◌, ◌≤◌, ◌<◌, ◌≡◌, refl, sym, ap, ◌∙◌, false, ◌++◌, append_assoc, arith, ◌==◌, Bytes,
  length, take, drop, length-append, length-take, length-drop,
}
use boost_url.Base.Slices.{
  slice, write, slice-left, slice-right, slice-take, drop-drop, write-replace, length-slice,
}
use boost_url.Url.{id_end, max_size, offset, size, len, get, put, Url}
use boost_url.Url.Frame.{IsValid, Spliced}
use mathlib.Core.Path.{ap₂}
use native.Mathlib.Decide.{dec_le}

-- `v` is `u` with the characters of the parts in [first, last) replaced by `s`. How `s` is divided
-- among those parts is left open.
pub record Edited (u : Url) (first last : ℕ) (s : Bytes) (v : Url) : Type 0 where
  pub chars_are : v.chars ≡ take (offset u first) u.chars ++ (s ++ drop (offset u last) u.chars)
  pub before : (i : ℕ) → i ≤ first → offset v i ≡ offset u i
  pub after :
      (i : ℕ)
      → last ≤ i
      → i ≤ id_end
      → offset v i + offset u last ≡ offset u i + offset u first + length s

pub Spliced-Edited :
    {u v : Url} {first last : ℕ} {s : Bytes} → Spliced u first last s v → Edited u first last s v
Spliced-Edited p = record { chars_are = p.chars_are; before = p.before; after = p.after }

pub len-eq : {u : Url} → IsValid u → (i : ℕ) → i < id_end → len u i ≡ offset u (i + 1) - offset u i
unfolding len
len-eq {u} valid i h =
    let inside : (i == id_end) ≡ false = ground arith in
    rw inside (
      omega (
        arith,
        valid.ascend i (i + 1) (omega arith) (omega arith),
        valid.ascend (i + 1) id_end (omega arith) (omega arith),
        valid.small,
      ))

pub get-eq :
    {u : Url}
    → IsValid u
    → (i : ℕ) → i < id_end
    → get u i ≡ slice (offset u i) (offset u (i + 1) - offset u i) u.chars
get-eq {u} valid i h = unfold get in ap (λ n. slice (offset u i) n u.chars) (len-eq valid i h)

pub length-get :
    {u : Url} → IsValid u → (i : ℕ) → i < id_end → length (get u i) ≡ offset u (i + 1) - offset u i
length-get {u} valid i h =
    ap length (get-eq valid i h)
    ∙ length-slice (offset u i) (offset u (i + 1) - offset u i) u.chars (
        omega (
          arith,
          valid.ascend i (i + 1) (omega arith) (omega arith),
          valid.ascend (i + 1) id_end (omega arith) (omega arith),
          valid.full,
        ))

module _ {u v : Url} {first last : ℕ} {s : Bytes} (valid : IsValid u)
    (edit : Edited u first last s v) (le : first ≤ last) (end : last ≤ id_end) where
  -- The division of `s` ascends.
  abbrev pub Divides : Type 0
  Divides = (i j : ℕ) → first ≤ i → i ≤ j → j ≤ last → offset v i ≤ offset v j

  pub size-Edited : size v + offset u last ≡ size u + offset u first + length s
  size-Edited = edit.after id_end end (omega arith)

  before-le : (i : ℕ) → i ≤ first → offset v i ≤ offset u first
  before-le i h = rw (edit.before i h) (valid.ascend i first h (omega arith))

  after-ge : (i : ℕ) → last ≤ i → i ≤ id_end → offset u first + length s ≤ offset v i
  after-ge i h k = omega (arith, edit.after i h k, valid.ascend last i h k)

  ascend-Edited : Divides → (i j : ℕ) → i ≤ j → j ≤ id_end → offset v i ≤ offset v j
  ascend-Edited inner i j h k = elim (dec_le j first) [
    | yes j_f ↦ rw (edit.before i (omega arith), edit.before j j_f) (valid.ascend i j h k)
    | no f_j ↦ elim (dec_le last i) [
      | yes l_i ↦ omega (
        arith,
        edit.after i l_i (omega arith),
        edit.after j (omega arith) k,
        valid.ascend i j h k,
      )
      | no i_l ↦ elim (dec_le i first) [
        | yes i_f ↦ elim (dec_le j last) [
          | yes j_l ↦ omega (
            arith,
            before-le i i_f,
            inner first j (omega arith) (omega arith) j_l,
            edit.before first (omega arith),
          )
          | no l_j ↦ omega (arith, before-le i i_f, after-ge j (omega arith) k)
        ]
        | no f_i ↦ elim (dec_le j last) [
          | yes j_l ↦ inner i j (omega arith) h j_l
          | no l_j ↦ omega (
            arith,
            inner i last (omega arith) (omega arith) (omega arith),
            edit.after last (omega arith) end,
            edit.after j (omega arith) k,
            valid.ascend last j (omega arith) k,
          )
        ]
      ]
    ]
  ]

  first_fits : offset u first ≤ length u.chars
  first_fits = omega (arith, valid.ascend first id_end (omega arith) (omega arith), valid.full)

  last_fits : offset u last ≤ length u.chars
  last_fits = omega (arith, valid.ascend last id_end end (omega arith), valid.full)

  size_head : length (take (offset u first) u.chars) ≡ offset u first
  size_head = length-take (offset u first) u.chars first_fits

  size-chars : size v ≡ length v.chars
  size-chars =
      let total =
        length-append (take (offset u first) u.chars) (s ++ drop (offset u last) u.chars) in
      let rest = length-append s (drop (offset u last) u.chars) in
      omega (
        arith,
        total,
        rest,
        size_head,
        length-drop (offset u last) u.chars,
        size-Edited,
        last_fits,
        valid.full,
        ap length edit.chars_are,
      )

  pub Edited-IsValid : Divides → size v ≤ max_size → IsValid v
  Edited-IsValid inner small = record {
    ascend = ascend-Edited inner;
    full = size-chars;
    small = small;
  }

  -- The parts outside the range keep their characters.
  pub get-before : IsValid v → (i : ℕ) → i < first → get v i ≡ get u i
  get-before ok_v i h =
      get-eq ok_v i (omega arith)
      ∙ ap₂ (λ o e. slice o (e - o) v.chars) (edit.before i (omega arith))
          (edit.before (i + 1) (omega arith))
      ∙ ap (slice (offset u i) (offset u (i + 1) - offset u i)) edit.chars_are
      ∙ slice-left (offset u i) (offset u (i + 1) - offset u i) (take (offset u first) u.chars) _
          (omega (arith, size_head, reach))
      ∙ slice-take (offset u i) (offset u (i + 1) - offset u i) (offset u first) u.chars
          (omega (arith, reach))
      ∙ sym (get-eq valid i (omega arith))
    where
      reach : (offset u i ≤ offset u (i + 1)) × (offset u (i + 1) ≤ offset u first)
      reach = (
        valid.ascend i (i + 1) (omega arith) (omega arith),
        valid.ascend (i + 1) first (omega arith) (omega arith),
      )

  pub get-after : IsValid v → (i : ℕ) → last ≤ i → i < id_end → get v i ≡ get u i
  get-after ok_v i h k =
      let n = offset u (i + 1) - offset u i in
      let m = offset u i - offset u last in
      let low = valid.ascend last i h (omega arith) in
      let here = edit.after i h (omega arith) in
      let next = edit.after (i + 1) (omega arith) (omega arith) in
      get-eq ok_v i k
      ∙ ap (λ l. slice (offset v i) l v.chars)
          (let e : offset v (i + 1) - offset v i ≡ n = omega arith in e)
      ∙ ap (slice (offset v i) n) edit.chars_are
      ∙ slice-right (offset v i) n (length s + m) (take (offset u first) u.chars) _
          (omega (arith, size_head))
      ∙ slice-right (length s + m) n m s (drop (offset u last) u.chars) refl
      ∙ ap (take n) (drop-drop m (offset u last) u.chars)
      ∙ ap (λ o. slice o n u.chars) (omega arith)
      ∙ sym (get-eq valid i k)

  -- A part of the range is its share of `s`.
  pub get-inside :
      IsValid v
      → (i a n : ℕ) → i < id_end
      → offset v i ≡ offset u first + a
      → offset v (i + 1) ≡ offset u first + (a + n)
      → a + n ≤ length s
      → get v i ≡ slice a n s
  get-inside ok_v i a n h p q m =
      get-eq ok_v i h
      ∙ ap (λ l. slice (offset v i) l v.chars)
          (let e : offset v (i + 1) - offset v i ≡ n = omega arith in e)
      ∙ ap (slice (offset v i) n) edit.chars_are
      ∙ slice-right (offset v i) n a (take (offset u first) u.chars) _ (omega (arith, size_head))
      ∙ slice-left a n s (drop (offset u last) u.chars) m

-- A write into the replaced characters.
pub Edited-put :
    {u v : Url} {first last : ℕ} (at : ℕ) (xs ys zs t : Bytes) {s : Bytes}
    → IsValid u
    → first ≤ last
    → last ≤ id_end
    → Edited u first last s v
    → s ≡ xs ++ (ys ++ zs)
    → at ≡ offset u first + length xs
    → length t ≡ length ys
    → Edited u first last (xs ++ (t ++ zs)) (put at t v)
Edited-put {u} {v} {first} {last} at xs ys zs t {s} valid le end edit e at_e size_t =
    let head = take (offset u first) u.chars in
    let tail = drop (offset u last) u.chars in
    let same : length (xs ++ (t ++ zs)) ≡ length s = omega (
      arith,
      ap length e,
      length-append xs (ys ++ zs),
      length-append ys zs,
      length-append xs (t ++ zs),
      length-append t zs,
    ) in
    let head_size : length (head ++ xs) ≡ offset u first + length xs = omega (
      arith,
      length-append head xs,
      length-take (offset u first) u.chars
          (omega (arith, valid.ascend first id_end (omega arith) (omega arith), valid.full)),
    ) in
    record {
      chars_are =
          ap (λ b. write b at t)
            (edit.chars_are ∙ ap (λ l. head ++ (l ++ tail)) e ∙ simp append_assoc)
          ∙ write-replace at (head ++ xs) ys (zs ++ tail) t (omega (arith, head_size)) size_t
          ∙ simp append_assoc;
      before = edit.before;
      after = λ i l m. omega (arith, edit.after i l m, same);
    }
