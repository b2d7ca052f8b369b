-- ===== src/Url/Path/Laws.antt =====
-- Where the first segment of a path ends.
-- A path of more than one segment has a '/' behind its prefix.
use boost_url.Base.{
  ℕ, zero, suc, ◌+◌, ◌-◌, ◌≤◌, ◌≡◌, refl, sym, ap, ◌∙◌, ◌⊎◌, inl, inr, false, ◌&&◌, [], ◌∷◌, ◌++◌,
  arith, ◌==◌, if◌then◌else◌, Bool-cases, Bytes, length, take, drop, length-drop, ◌>>=◌, Result,
  err, ok,
}
use boost_url.DotSegments.{to_slash}
use boost_url.Url.{id_path, id_query, offset, get, Url}
use boost_url.Url.Frame.{IsValid}
use boost_url.Url.Parts.{length-get}
use boost_url.Url.Path.{path_prefix, clean_path, slash_at, segment}

abbrev pub HasSegments : Url → Type 0
HasSegments u =
    (u.nseg_ ≤ 1) ⊎ ((a : Bytes) × (b : Bytes) × (clean_path (get u id_path) ≡ a ++ b'/' ∷ b))

slash_at-found : (a b : Bytes) → (n : ℕ) × (slash_at 0 (a ++ b'/' ∷ b) ≡ ok n)
unfolding slash_at
slash_at-found [] b = (0, refl)
slash_at-found (c ∷ a) b =
    let (n, e) = slash_at-found a b in
    elim (Bool-cases (c == b'/')) [
      | inl here ↦ (0, rw here refl)
      | inr more ↦ (1 + n, rw (slash_at, more, e) refl)
    ]

module _ (c n : ℕ) (s : Bytes) where
  one_more :
      (r : Result ℕ)
      → (if c == b'/' then ok 0 else (r >>= λ k. ok (1 + k))) ≡ ok n
      → ((m : ℕ) → r ≡ ok m → length (to_slash s).0 ≡ m)
      → length (to_slash (c ∷ s)).0 ≡ n
  unfolding to_slash
  one_more (err why) e ih = ground (arith, e)
  one_more (ok k) e ih = ground (arith, e, ih k refl)

slash_at-to_slash : (s : Bytes) (n : ℕ) → slash_at 0 s ≡ ok n → length (to_slash s).0 ≡ n
unfolding slash_at
slash_at-to_slash [] n e = cc
slash_at-to_slash (c ∷ s) n e = one_more c n s (slash_at 0 s) e (slash_at-to_slash s)

prefix_cases : (s : Bytes) → (path_prefix s ≡ 0) ⊎ (length (to_slash s).0 ≤ path_prefix s)
unfolding path_prefix to_slash
prefix_cases [] = inl refl
prefix_cases (c ∷ []) = elim (Bool-cases (c == b'/')) [
  | inl slash ↦ inr (rw slash (omega arith))
  | inr other ↦ inl (rw other refl)
]
prefix_cases (c ∷ d ∷ []) = elim (Bool-cases (c == b'/')) [
  | inl slash ↦ inr (rw slash (omega arith))
  | inr other ↦ elim (Bool-cases (c == b'.' && d == b'/')) [
    | inl dot ↦ inr (ground (arith, dot, other))
    | inr none' ↦ inl (rw (other, none') refl)
  ]
]
prefix_cases (c ∷ d ∷ e ∷ s) = elim (Bool-cases (c == b'/')) [
  | inl slash ↦ inr (rw slash (omega arith))
  | inr other ↦ elim (Bool-cases (c == b'.' && d == b'/')) [
    | inl dot ↦ inr (ground (arith, dot, other))
    | inr none' ↦ inl (rw (other, none') refl)
  ]
]

-- The characters in front of the first '/'.
to_slash-prefix :
    (s : Bytes) (n : ℕ)
    → slash_at 0 (clean_path s) ≡ ok n
    → length (to_slash s).0 ≤ path_prefix s + n
unfolding clean_path
to_slash-prefix s n e = elim (prefix_cases s) [
  | inl none' ↦
      let same : length (to_slash s).0 ≡ n =
        slash_at-to_slash s n (ap (λ k. slash_at 0 (drop k s)) (sym none') ∙ e) in
      omega (arith, same)
  | inr long ↦ omega (arith, long)
]

pub to_slash-take :
    (s : Bytes) (m : ℕ) → length (to_slash s).0 ≤ m → (r : Bytes) × (take m s ≡ (to_slash s).0 ++ r)
unfolding to_slash
to_slash-take [] zero h = ([], refl)
to_slash-take [] (suc m) h = ([], refl)
to_slash-take (c ∷ s) zero h = elim (Bool-cases (c == b'/')) [
  | inl slash ↦ ([], rw (to_slash, slash) refl)
  | inr other ↦ absurd (ground (arith, h, other))
]
to_slash-take (c ∷ s) (suc m) h = elim (Bool-cases (c == b'/')) [
  | inl slash ↦ (take (suc m) (c ∷ s), rw (to_slash, slash) refl)
  | inr other ↦
      let (r, e) = to_slash-take s m (ground (arith, h, other)) in
      (r, rw (to_slash, other) (ap (◌∷◌ c) e))
]

length-to_slash : (s : Bytes) → length (to_slash s).0 ≤ length s
unfolding to_slash
length-to_slash [] = omega arith
length-to_slash (c ∷ s) = ground (arith, length-to_slash s)

length-path_prefix : (s : Bytes) → path_prefix s ≤ length s
unfolding path_prefix
length-path_prefix [] = omega arith
length-path_prefix (c ∷ []) = ground arith
length-path_prefix (c ∷ d ∷ []) = ground arith
length-path_prefix (c ∷ d ∷ e ∷ s) = ground arith

clean_path-slash :
    (s : Bytes) (n : ℕ) → slash_at 0 (clean_path s) ≡ ok n → n ≤ length s - path_prefix s
unfolding clean_path
clean_path-slash s n e = omega (
  arith,
  slash_at-to_slash (drop (path_prefix s) s) n e,
  length-to_slash (drop (path_prefix s) s),
  length-drop (path_prefix s) s,
)

-- The characters of the path in front of the second segment: all of them if there is none.
abbrev pub reach : Url → ℕ
reach u =
    if 1 == u.nseg_
    then length (get u id_path)
    else path_prefix (get u id_path) + length (to_slash (clean_path (get u id_path))).0

-- The second segment's offset, between the end of the first segment and that of the path.
pub segment-one :
    (u : Url)
    → IsValid u
    → HasSegments u
    → (u.nseg_ == 0) ≡ false
    → (next : ℕ) × (segment 1 u ≡ ok next)
      × (offset u id_path + length (to_slash (get u id_path)).0 ≤ next)
      × (offset u id_path + path_prefix (get u id_path) ≤ next)
      × (next ≤ offset u id_query)
      × (next ≡ offset u id_path + reach u)
unfolding segment
segment-one u valid many more =
    let path = get u id_path in
    elim (Bool-cases (1 == u.nseg_)) [
      | inl single ↦
          let up = valid.ascend id_path id_query (omega arith) (omega arith) in
          let size_path : length path ≡ offset u id_query - offset u id_path =
            length-get valid id_path (omega arith) in
          (
            offset u id_query,
            rw single refl,
            omega (arith, length-to_slash path, size_path, up),
            omega (arith, length-path_prefix path, size_path, up),
            omega arith,
            rw single (omega (arith, size_path, up)),
          )
      | inr several ↦ elim many [
        | inl few ↦ absurd (ground (arith, few, several, more))
        | inr (a, b, e) ↦
            let (n, found) = slash_at-found a b in
            let found' : slash_at 0 (clean_path path) ≡ ok n = rw e found in
            let le = to_slash-prefix path n found' in
            let inside = clean_path-slash path n found' in
            let up = valid.ascend id_path id_query (omega arith) (omega arith) in
            let size_path = length-get valid id_path (omega arith) in
            (
              offset u id_path + path_prefix path + n,
              rw several (unfold clean_path in rw found' refl),
              omega (arith, le),
              omega arith,
              omega (arith, inside, size_path, length-path_prefix path, up),
              rw several (omega (arith, slash_at-to_slash (clean_path path) n found')),
            )
      ]
    ]
