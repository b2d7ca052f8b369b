-- ===== src/DotSegments/Bounds.antt =====
-- `remove_dot_segments` ends, and its output is no longer than its input.
use boost_url.Base.{
  ℕ, zero, suc, ◌+◌, ◌≤◌, ◌<◌, ◌≡◌, refl, inl, inr, Bool, true, false, not, ◌&&◌, ◌||◌, Option,
  none, some, [], ◌∷◌, ◌++◌, arith, ◌==◌, if◌then◌else◌, Bool-cases, Bytes, codes, length, take,
  drop, length-append, length-drop, equal,
}
use boost_url.DotSegments.{
  starts_with, before_last_slash, to_slash, first_segment, rule_a, rule_d, up, up_at_end, dot_step,
  dot_loop, remove_dot_segments,
}
use boost_url.Url.{size}

length-starts_with : (t s : Bytes) → starts_with t s ≡ true → length t ≤ length s
unfolding starts_with
length-starts_with [] s h = omega arith
length-starts_with (c ∷ t) [] h = absurd (cc)
length-starts_with (c ∷ t) (d ∷ s) h = elim (Bool-cases (starts_with t s)) [
  | inl more ↦ omega (arith, length-starts_with t s more)
  | inr less ↦ absurd (ground arith)
]

-- A text that is shorter than `n`, if there is one.
abbrev Shorter : ℕ → Option Bytes → Type 0
Shorter n none = Unit
Shorter n (some t) = length t < n

before_last_slash-Shorter : (s : Bytes) → Shorter (length s) (before_last_slash s)
unfolding before_last_slash
before_last_slash-Shorter [] = tt
before_last_slash-Shorter (c ∷ s) = longer (before_last_slash s) (before_last_slash-Shorter s)
  where
    longer :
        (x : Option Bytes)
        → Shorter (length s) x
        → Shorter
            (length (c ∷ s))
            (elim x [ some t ↦ some (c ∷ t) | none ↦ if c == b'/' then some [] else none ])
    longer (some t) h = omega (arith, h)
    longer none h = elim (Bool-cases (c == b'/')) [
      | inl slash ↦ rw slash (omega arith)
      | inr other ↦ rw other tt
    ]

length-take_le : (n : ℕ) (s : Bytes) → length (take n s) ≤ n
length-take_le zero s = omega arith
length-take_le (suc n) [] = omega arith
length-take_le (suc n) (c ∷ s) = omega (arith, length-take_le n s)

length-up : (rm : Bool) (dest s : Bytes) → length (up rm dest s) ≤ length dest + 3
unfolding up
length-up rm dest s = kept (before_last_slash dest) (before_last_slash-Shorter dest)
  where
    kept :
        (x : Option Bytes)
        → Shorter (length dest) x
        → length
            (elim x as (λ _. Bytes) [ some k ↦ k | none ↦ if rm then dest else dest ++ take 3 s ])
          ≤ length dest + 3
    kept (some k) h = omega (arith, h)
    kept none h = elim (Bool-cases rm) [
      | inl remove ↦ rw remove (omega arith)
      | inr leave ↦ rw leave (omega (arith, length-append dest (take 3 s), length-take_le 3 s))
    ]

length-up_at_end : (rm : Bool) (dest s : Bytes) → length (up_at_end rm dest s) ≤ length dest + 3
unfolding up_at_end
length-up_at_end rm dest s = kept (before_last_slash dest) (before_last_slash-Shorter dest)
  where
    kept :
        (x : Option Bytes)
        → Shorter (length dest) x
        → length (elim x as (λ _. Bytes) [
          | some k ↦ k ++ take 1 s
          | none ↦ if rm then dest ++ take 1 s else dest ++ take 3 s
        ])
          ≤ length dest + 3
    kept (some k) h = omega (arith, h, length-append k (take 1 s), length-take_le 1 s)
    kept none h = elim (Bool-cases rm) [
      | inl remove ↦ rw remove (omega (arith, length-append dest (take 1 s), length-take_le 1 s))
      | inr leave ↦ rw leave (omega (arith, length-append dest (take 3 s), length-take_le 3 s))
    ]

length-equal : (s t : Bytes) → equal s t ≡ true → length s ≡ length t
length-equal [] [] h = refl
length-equal [] (y ∷ t) h = absurd (cc)
length-equal (x ∷ s) [] h = absurd (cc)
length-equal (x ∷ s) (y ∷ t) h = elim (Bool-cases (equal s t)) [
  | inl more ↦ omega (arith, length-equal s t more)
  | inr less ↦ absurd (ground arith)
]

to_slash-append : (s : Bytes) → length (to_slash s).0 + length (to_slash s).1 ≡ length s
unfolding to_slash
to_slash-append [] = refl
to_slash-append (c ∷ s) = elim (Bool-cases (c == b'/')) [
  | inl slash ↦ rw slash (omega arith)
  | inr other ↦ rw other (omega (arith, to_slash-append s))
]

-- A round takes a character at least, and the output grows by no more than what was taken.
dot_step-shorter :
    (rm : Bool) (dest s : Bytes) (c : ℕ)
    → (length (dot_step rm dest (c ∷ s)).1 ≤ length s)
      × (length (dot_step rm dest (c ∷ s)).0 + length (dot_step rm dest (c ∷ s)).1
          ≤ length dest + length (c ∷ s))
unfolding dot_step first_segment
dot_step-shorter rm dest s c = elim (Bool-cases (starts_with (codes "/./") (c ∷ s))) [
  | inl b ↦
      let size = length-starts_with (codes "/./") (c ∷ s) b in
      rw b (omega (arith, size, length-drop 2 (c ∷ s)), omega (arith, size, length-drop 2 (c ∷ s)))
  | inr not_b ↦ elim (Bool-cases (equal (c ∷ s) (codes "/."))) [
    | inl b_end ↦
        let size = length-equal (c ∷ s) (codes "/.") b_end in
        rw (not_b, b_end)
          (
            omega (arith, size, length-drop 2 (c ∷ s)),
            omega (
              arith,
              size,
              length-drop 2 (c ∷ s),
              length-append dest (take 1 (c ∷ s)),
              length-take_le 1 (c ∷ s),
            ),
          )
    | inr not_end ↦ elim (Bool-cases (starts_with (codes "/../") (c ∷ s))) [
      | inl up_on ↦
          let size = length-starts_with (codes "/../") (c ∷ s) up_on in
          rw (not_b, not_end, up_on)
            (
              omega (arith, size, length-drop 3 (c ∷ s)),
              omega (arith, size, length-drop 3 (c ∷ s), length-up rm dest (c ∷ s)),
            )
      | inr not_up ↦ elim (Bool-cases (equal (c ∷ s) (codes "/.."))) [
        | inl up_last ↦
            let size = length-equal (c ∷ s) (codes "/..") up_last in
            rw (not_b, not_end, not_up, up_last)
              (
                omega (arith, size, length-drop 3 (c ∷ s)),
                omega (arith, size, length-drop 3 (c ∷ s), length-up_at_end rm dest (c ∷ s)),
              )
        | inr segment ↦
            let size = to_slash-append s in
            rw (not_b, not_end, not_up, segment)
              (
                omega (arith, size),
                omega (arith, size, length-append dest (first_segment (c ∷ s)).0),
              )
      ]
    ]
  ]
]

-- The loop ends within as many rounds as there are characters, and writes no more than these.
dot_loop-ends :
    (fuel : ℕ) (rm : Bool) (dest s : Bytes)
    → length s ≤ fuel
    → (out : Bytes) × (dot_loop fuel rm dest s ≡ some out) × (length out ≤ length dest + length s)
unfolding dot_loop
dot_loop-ends fuel rm dest [] le = (dest, refl, omega arith)
dot_loop-ends zero rm dest (c ∷ s) le = absurd (omega arith)
dot_loop-ends (suc fuel) rm dest (c ∷ s) le =
    let (less, room) = dot_step-shorter rm dest s c in
    let (out, e, size) =
      dot_loop-ends fuel rm (dot_step rm dest (c ∷ s)).0 (dot_step rm dest (c ∷ s)).1
        (omega (arith, less, le)) in
    (out, e, omega (arith, size, room))

-- It has ended, with no more than `n` characters written or left and no more than `m` left.
abbrev EndsWith : ℕ → ℕ → Option (Bytes × Bytes) → Type 0
EndsWith n m x =
    (p : Bytes × Bytes) × (x ≡ some p) × (length p.0 + length p.1 ≤ n) × (length p.1 ≤ m)

EndsWith-le :
    (n m n' m' : ℕ) (x : Option (Bytes × Bytes))
    → n ≤ n'
    → m ≤ m'
    → EndsWith n m x
    → EndsWith n' m' x
EndsWith-le n m n' m' x h k (p, e, a, b) = (p, e, omega (arith, a, h), omega (arith, b, k))

length-kept :
    (rm : Bool) (dest s : Bytes) → length (if rm then dest else dest ++ take 3 s) ≤ length dest + 3
length-kept rm dest s = elim (Bool-cases rm) [
  | inl remove ↦ rw remove (omega arith)
  | inr leave ↦ rw leave (omega (arith, length-append dest (take 3 s), length-take_le 3 s))
]

rule_a-EndsWith :
    (fuel : ℕ) (rm : Bool) (dest s : Bytes)
    → length s ≤ fuel
    → EndsWith (length dest + length s) (length s) (rule_a fuel rm dest s)
unfolding rule_a
rule_a-EndsWith fuel rm dest [] le = ((dest, []), refl, omega arith, omega arith)
rule_a-EndsWith zero rm dest (c ∷ s) le = absurd (omega arith)
rule_a-EndsWith (suc fuel) rm dest (c ∷ s) le =
    step (starts_with (codes "../") (c ∷ s)) (starts_with (codes "./") (c ∷ s))
      (length-starts_with (codes "../") (c ∷ s)) (length-starts_with (codes "./") (c ∷ s))
      (rule_a-EndsWith fuel rm)
  where
    step :
        (b d : Bool)
        → (b ≡ true → 3 ≤ length (c ∷ s))
        → (d ≡ true → 2 ≤ length (c ∷ s))
        → ((dest1 s1 : Bytes)
            → length s1 ≤ fuel
            → EndsWith (length dest1 + length s1) (length s1) (rule_a fuel rm dest1 s1))
        → EndsWith (length dest + length (c ∷ s)) (length (c ∷ s)) (elim b [
          | true ↦ rule_a fuel rm (if rm then dest else dest ++ take 3 (c ∷ s)) (drop 3 (c ∷ s))
          | false ↦ elim d [
            | true ↦ rule_a fuel rm dest (drop 2 (c ∷ s))
            | false ↦ some (dest, c ∷ s)
          ]
        ])
    step true d h k more =
        let size : 3 ≤ length (c ∷ s) = h refl in
        let rest = length-drop 3 (c ∷ s) in
        let out = if rm then dest else dest ++ take 3 (c ∷ s) in
        EndsWith-le _ _ _ _ _ (omega (arith, size, rest, length-kept rm dest (c ∷ s)))
          (omega (arith, size, rest)) (more out (drop 3 (c ∷ s)) (omega (arith, size, rest, le)))
    step false true h k more =
        let size : 2 ≤ length (c ∷ s) = k refl in
        let rest = length-drop 2 (c ∷ s) in
        EndsWith-le _ _ _ _ _ (omega (arith, size, rest)) (omega (arith, size, rest))
          (more dest (drop 2 (c ∷ s)) (omega (arith, size, rest, le)))
    step false false h k more = ((dest, c ∷ s), refl, omega arith, omega arith)

rule_d-shorter :
    (rm : Bool) (dest s : Bytes)
    → (length (rule_d rm dest s).0 + length (rule_d rm dest s).1 ≤ length dest + length s)
      × (length (rule_d rm dest s).1 ≤ length s)
unfolding rule_d
rule_d-shorter rm dest s = elim (Bool-cases (equal s (codes ".") || equal s (codes ".."))) [
  | inr more ↦ rw more (omega arith, omega arith)
  | inl dots ↦ elim (Bool-cases (not rm && equal s (codes ".."))) [
    | inl leave ↦ rw (dots, leave) (omega (arith, length-append dest s), omega arith)
    | inr remove ↦ rw (dots, remove) (omega arith, omega arith)
  ]
]

-- `remove_dot_segments` ends on every input, and what it writes is no longer than the input: it stays
-- inside an output of that size.
pub remove_dot_segments_bounds :
    (s : Bytes) (rm : Bool)
    → (out : Bytes) × (remove_dot_segments s rm ≡ some out) × (length out ≤ length s)
unfolding remove_dot_segments
remove_dot_segments_bounds s rm =
    let ((dest, rest), e, size, less) = rule_a-EndsWith (length s) rm [] s (omega arith) in
    let (room, shorter) = rule_d-shorter rm dest rest in
    let (out, f, n) =
      dot_loop-ends (length s) rm (rule_d rm dest rest).0 (rule_d rm dest rest).1
        (omega (arith, shorter, less)) in
    (out, rw (e, remove_dot_segments) f, omega (arith, n, room, size))
