-- ===== src/Url/Replace.antt =====
-- Replacing one part, and replacing a range by characters that its first two parts share.
use boost_url.Base.{
  ℕ, ◌+◌, ◌-◌, ◌≤◌, ◌<◌, ◌≡◌, sym, ap, ◌∙◌, ◌≢◌, inl, inr, false, [], ◌++◌, append-nil, arith, ◌==◌,
  Bool-cases, ==_iff, Bytes, length, take, drop, length-append, take-append-drop, length-take,
  length-drop, length_zero, ok,
}
use boost_url.Base.Slices.{slice, take-all}
use boost_url.Scheme.{Scheme}
use boost_url.Url.{id_end, max_size, Table, offset, size, len, get, put, HostType, Url}
use boost_url.Url.Frame.{resize_range-Spliced, IsValid, Spliced}
use boost_url.Url.Parts.{
  Spliced-Edited, size-Edited, Edited-IsValid, get-before, get-after, get-inside, Edited-put,
  Edited,
}
use boost_url.Url.Resize.{resize_part}
use mathlib.Core.Path.{subst}
use native.Mathlib.Nat.{le_refl}
use native.Mathlib.Decide.{dec_le, ℕ_discrete}

-- Room for `n` characters in place of the parts in [first, last).
abbrev pub Fits : Url → ℕ → ℕ → ℕ → Type 0
Fits u first last n = size u + n ≤ max_size + (offset u last - offset u first)

-- `v` has the part `id` replaced by `t`, and every other part as in `u`.
abbrev pub Replaced : Url → ℕ → Bytes → Url → Type 0
Replaced u id t v = IsValid v × (get v id ≡ t) × ((i : ℕ) → i ≢ id → i < id_end → get v i ≡ get u i)

pub Edited-Replaced :
    {u v : Url} {t : Bytes} (id : ℕ)
    → IsValid u
    → id < id_end
    → Edited u id (id + 1) t v
    → Fits u id (id + 1) (length t)
    → Replaced u id t v
Edited-Replaced {u} {v} {t} id valid h edit fits =
    let up = valid.ascend id (id + 1) (omega arith) (omega arith) in
    let here = edit.before id (omega arith) in
    let next : offset v (id + 1) ≡ offset u id + length t =
      omega (arith, edit.after (id + 1) (omega arith) (omega arith)) in
    let ok_v =
      Edited-IsValid valid edit (omega arith) (omega arith) divides
        (omega (arith, size-Edited valid edit (omega arith) (omega arith), up)) in
    (
      ok_v,
      get-inside valid edit (omega arith) (omega arith) ok_v id 0 (length t) h (omega (arith, here))
            (omega (arith, next)) (omega arith)
          ∙ take-all (length t) t (omega arith),
      λ i ne lt. elim (dec_le i id) [
        | yes le ↦ get-before valid edit (omega arith) (omega arith) ok_v i (omega arith)
        | no gt ↦ get-after valid edit (omega arith) (omega arith) ok_v i (omega arith) lt
      ],
    )
  where
    divides : (i j : ℕ) → id ≤ i → i ≤ j → j ≤ id + 1 → offset v i ≤ offset v j
    divides i j f_i i_j j_l = elim (ℕ_discrete i j) [
      | yes same ↦ rw same (le_refl (offset v j))
      | no other ↦
          let first_is : i ≡ id = omega arith in
          let last_is : j ≡ id + 1 = omega arith in
          rw (first_is, last_is)
            (omega (
              arith,
              edit.before id (omega arith),
              edit.after (id + 1) (omega arith) (omega arith),
              valid.ascend id (id + 1) (omega arith) (omega arith),
            ))
    ]

-- The other fields of the state do not matter.
pub Replaced-rest :
    (u v : Url) (id : ℕ) (t : Bytes) (d : Table) (nseg nparam : ℕ) (ip : Bytes) (port : ℕ)
    (h : HostType) (s : Scheme)
    → Replaced u id t v
    → Replaced u id t (record v {
      decoded_ = d;
      nseg_ = nseg;
      nparam_ = nparam;
      ip_addr_ = ip;
      port_number_ = port;
      host_type_ = h;
      scheme_ = s;
    })
unfolding get len
Replaced-rest u v id t d nseg nparam ip port h s (valid, here, others) =
    (record { ascend = valid.ascend; full = valid.full; small = valid.small }, here, others)

-- A prefix and a body written into the part that was resized for them.
pub fill-Replaced :
    {u v : Url} {old : Bytes} (id : ℕ) (front body : Bytes)
    → IsValid u
    → id < id_end
    → Spliced u id (id + 1) old v
    → length old ≡ length front + length body
    → Fits u id (id + 1) (length front + length body)
    → Replaced u id
        (front ++ body)
        (put (offset v id + length front) body (put (offset v id) front v))
fill-Replaced {u} {v} {old} id front body valid h spliced size_old fits =
    let here = spliced.before id (omega arith) in
    let n = length front in
    let first =
      Edited-put (offset v id) [] (take n old) (drop n old) front valid (omega arith) (omega arith)
        (Spliced-Edited spliced) (sym (take-append-drop n old)) (omega (arith, here))
        (sym (length-take n old (omega (arith, size_old)))) in
    let second =
      Edited-put (offset v id + n) front (drop n old) [] body valid (omega arith) (omega arith)
        first (ap (◌++◌ front) (sym (append-nil (drop n old)))) (omega (arith, here))
        (omega (arith, length-drop n old, size_old)) in
    let whole : front ++ (body ++ []) ≡ front ++ body = ap (◌++◌ front) (append-nil body) in
    Edited-Replaced id valid h
      (subst (λ t. Edited u id (id + 1) t (put (offset v id + n) body (put (offset v id) front v)))
        whole second)
      (omega (arith, length-append front body, fits))

-- A part is removed by a resize to 0, which never throws.
pub resize_zero-Replaced :
    (u : Url) (id : ℕ)
    → IsValid u
    → id < id_end
    → (v : Url) × (resize_part id 0 u ≡ ok v) × Replaced u id [] v
unfolding resize_part
resize_zero-Replaced u id valid h =
    let room : Fits u id (id + 1) 0 = omega (arith, valid.small) in
    let (old, v, e, size_old, spliced) =
      resize_range-Spliced id (id + 1) 0 valid (omega arith) (omega arith) room in
    let edit =
      subst (λ t. Edited u id (id + 1) t v) (length_zero old size_old) (Spliced-Edited spliced) in
    (v, e, Edited-Replaced id valid h edit room)

-- The test `u_.len(id) == 0`.
pub has_part :
    (u : Url) (id : ℕ) → IsValid u → id < id_end → get u id ≢ [] → (len u id == 0) ≡ false
unfolding get
has_part u id valid h ne = elim (Bool-cases (len u id == 0)) [
  | inl zero' ↦
      absurd (ne (ap (λ n. slice (offset u id) n u.chars) ((==_iff (len u id) 0).0 zero')))
  | inr more ↦ more
]
