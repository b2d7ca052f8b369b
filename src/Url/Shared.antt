-- ===== src/Url/Shared.antt =====
-- Replacing two neighbouring parts by characters that they share.
use boost_url.Base.{
  ℕ, ◌+◌, ◌-◌, ◌≤◌, ◌<◌, ◌≡◌, ap, ◌∙◌, ◌≢◌, ◌⊎◌, inl, inr, arith, Bytes, length, take, drop,
  length-take, length-drop,
}
use boost_url.Base.Slices.{slice, slice-left, slice-right, take-all}
use boost_url.Url.{id_end, pos_sub, offset, len, get, get_range, split, set_decoded, Url}
use boost_url.Url.Frame.{IsValid}
use boost_url.Url.Parts.{size-Edited, Edited-IsValid, get-before, get-after, get-inside, Edited}
use boost_url.Url.Replace.{Fits}
use native.Mathlib.Decide.{ℕ_discrete}

-- `v` has the characters `s` in place of the parts `first` and `first + 1`, the first of which has
-- `a` of them, and every other part as in `u`.
abbrev pub Shared : Url → ℕ → Bytes → ℕ → Url → Type 0
Shared u first s a v =
    IsValid v
    × (get v first ≡ take a s)
    × (get v (first + 1) ≡ drop a s)
    × ((i : ℕ) → (i < first) ⊎ (first + 2 ≤ i) → i < id_end → get v i ≡ get u i)

-- The decoded sizes do not matter.
pub Shared-decoded :
    (u v : Url) (first a : ℕ) (s : Bytes) (id n : ℕ)
    → Shared u first s a v
    → Shared u first s a (set_decoded id n v)
unfolding get len
Shared-decoded u v first a s id n (valid, one, two, others) =
    (record { ascend = valid.ascend; full = valid.full; small = valid.small }, one, two, others)

module _ {u v : Url} {s : Bytes} (first a : ℕ) (valid : IsValid u) (h : first + 2 ≤ id_end)
    (edit : Edited u first (first + 2) s v) (cut : offset v (first + 1) ≡ offset u first + a)
    (le : a ≤ length s) where
  middle :
      (i : ℕ)
      → first ≤ i
      → i ≤ first + 2
      → ((i ≡ first) × (offset v i ≡ offset u first))
        ⊎ ((i ≡ first + 1) × (offset v i ≡ offset u first + a))
        ⊎ ((i ≡ first + 2) × (offset v i ≡ offset u first + length s))
  middle i f l = elim (ℕ_discrete i first) [
    | yes e ↦ inl (e, ap (offset v) e ∙ edit.before first (omega arith))
    | no ne ↦ elim (ℕ_discrete i (first + 1)) [
      | yes e ↦ inr (inl (e, rw e cut))
      | no ne' ↦ inr (
          inr (
            omega arith,
            omega (
              arith,
              edit.after i (omega arith) (omega arith),
              (let e : offset u i ≡ offset u (first + 2) = ap (offset u) (omega arith) in e),
            ),
          ))
    ]
  ]

  divides : (i j : ℕ) → first ≤ i → i ≤ j → j ≤ first + 2 → offset v i ≤ offset v j
  divides i j f i_j l = ground (arith, middle i f (omega arith), middle j (omega arith) l)

  pub Edited-Shared : Fits u first (first + 2) (length s) → Shared u first s a v
  Edited-Shared fits =
      let up = valid.ascend first (first + 2) (omega arith) h in
      let ok_v =
        Edited-IsValid valid edit (omega arith) h divides
          (omega (arith, size-Edited valid edit (omega arith) h, up)) in
      let here = edit.before first (omega arith) in
      let end = edit.after (first + 2) (omega arith) h in
      let two : offset v (first + 1 + 1) ≡ offset v (first + 2) = ap (offset v) (omega arith) in
      (
        ok_v,
        get-inside valid edit (omega arith) h ok_v first 0 a (omega arith) (omega (arith, here))
            (omega (arith, cut)) (omega arith),
        get-inside valid edit (omega arith) h ok_v (first + 1) a (length s - a) (omega arith) cut
              (omega (arith, end, two)) (omega arith)
            ∙ take-all (length s - a) (drop a s) (omega (arith, length-drop a s)),
        λ i side lt. elim side [
          | inl low ↦ get-before valid edit (omega arith) h ok_v i low
          | inr high ↦ get-after valid edit (omega arith) h ok_v i high lt
        ],
      )

-- `split` inside the edited parts keeps the edit.
pub split-Edited :
    {u v : Url} {s : Bytes} (first a : ℕ)
    → Edited u first (first + 2) s v
    → Edited u first (first + 2) s (split first a v)
unfolding split
split-Edited {u} {v} {s} first a edit =
    let other : (i : ℕ) → i ≢ first + 1 → offset (split first a v) i ≡ offset v i =
      λ i ne. ground arith in
    record {
      chars_are = edit.chars_are;
      before = λ i le. other i (omega arith) ∙ edit.before i le;
      after = λ i le le'. rw (other i (omega arith)) (edit.after i le le');
    }

-- The characters of the two parts.
pub get_range-Edited :
    {u v : Url} {s : Bytes} (first : ℕ)
    → IsValid u
    → first + 2 ≤ id_end
    → Edited u first (first + 2) s v
    → Fits u first (first + 2) (length s)
    → get_range v first (first + 2) ≡ s
unfolding get_range
get_range-Edited {u} {v} {s} first valid h edit fits =
    let here = edit.before first (omega arith) in
    let end = edit.after (first + 2) (omega arith) h in
    let up = valid.ascend first (first + 2) (omega arith) h in
    let top = valid.ascend (first + 2) id_end h (omega arith) in
    let n : pos_sub (offset v (first + 2)) (offset v first) ≡ length s =
      omega (arith, here, end, up, top, valid.small) in
    rw n (
      ap (slice (offset v first) (length s)) edit.chars_are
      ∙ slice-right (offset v first) (length s) 0 (take (offset u first) u.chars) _ (
          omega (
            arith,
            here,
            length-take (offset u first) u.chars (omega (arith, up, top, valid.full)),
          ))
      ∙ slice-left 0 (length s) s (drop (offset u (first + 2)) u.chars) (omega arith)
      ∙ take-all (length s) s (omega arith))
