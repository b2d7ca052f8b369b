-- ===== src/Url/SchemePart/Front.antt =====
-- When `need_dot` wants a "./" in front of the path.
use boost_url.Base.{
  ℕ, zero, suc, ◌-◌, ◌≤◌, ◌≡◌, refl, sym, ap, ◌∙◌, ◌⊎◌, inl, inr, Bool, true, false, ◌||◌, Option,
  none, some, [], ◌∷◌, ◌++◌, arith, ◌==◌, if◌then◌else◌, Bool-cases, ==_iff, Bytes, codes, length,
  take, drop, Option-cases, All, equal, ok,
}
use boost_url.Base.Slices.{slice}
use boost_url.DotSegments.{to_slash}
use boost_url.Url.{id_path, id_query, offset, get, Url}
use boost_url.Url.Frame.{IsValid}
use boost_url.Url.Parts.{get-eq, length-get}
use boost_url.Url.Path.Laws.{HasSegments, to_slash-take, reach, segment-one}
use boost_url.Url.SchemePart.{need_dot}
use boost_url.Url.SchemePart.Laws.{front-path}
use boost_url.Url.Userinfo.{find_first_of}
use boost_url.Url.View.{has_authority, path}
use mathlib.Core.Path.{subst}
use mathlib.Core.Option

-- No ':' in front of the first '/'.
abbrev pub NoColonFirst : Bytes → Type 0
NoColonFirst s = All (λ c. (c == b':') ≡ false) (to_slash s).0

map-none : (o : Option ℕ) → Option.map suc o ≡ none → o ≡ none
map-none none e = refl
map-none (some i) e = cc

pub find_first_of-none :
    (c : ℕ) (s : Bytes) → find_first_of c s ≡ none → All (λ x. (x == c) ≡ false) s
unfolding find_first_of
find_first_of-none c [] e = tt
find_first_of-none c (x ∷ s) e = elim (Bool-cases (x == c)) [
  | inl here ↦ absurd (ground (arith, here, e))
  | inr other ↦ (
    other,
    find_first_of-none c s (
        let e' : (if x == c then some 0 else Option.map suc (find_first_of c s)) ≡ none = e in
        map-none (find_first_of c s) (rw other at e')),
  )
]

All-front : (P : ℕ → Type 0) (xs ys : Bytes) → All P (xs ++ ys) → All P xs
All-front P [] ys h = tt
All-front P (x ∷ xs) ys (h, more) = (h, All-front P xs ys more)

slash-NoColonFirst :
    (m : ℕ) (xs : Bytes) → equal (take 1 xs) (codes "/") ≡ true → NoColonFirst (take m xs)
unfolding to_slash
slash-NoColonFirst zero xs e = tt
slash-NoColonFirst (suc m) [] e = tt
slash-NoColonFirst (suc m) (x ∷ xs) e =
    let slash : (x == b'/') ≡ true = ground (arith, e) in rw slash tt

dot-NoColonFirst : (s : Bytes) → NoColonFirst (codes "./" ++ s)
unfolding to_slash
dot-NoColonFirst s = (refl, tt)

missing-NoColonFirst :
    (s t : Bytes) (m : ℕ)
    → t ≡ take m s
    → length (to_slash s).0 ≤ m
    → find_first_of b':' t ≡ none
    → NoColonFirst s
missing-NoColonFirst s t m e le missing =
    let (r, taken) = to_slash-take s m le in
    All-front (λ c. (c == b':') ≡ false) (to_slash s).0 r
      (subst (All (λ c. (c == b':') ≡ false)) (e ∙ taken) (find_first_of-none b':' t missing))

find_first_of-some :
    (c : ℕ) (s : Bytes) (i : ℕ)
    → find_first_of c s ≡ some i
    → (a : Bytes) × (b : Bytes) × (s ≡ a ++ c ∷ b)
unfolding find_first_of
find_first_of-some c [] i e = absurd (cc)
find_first_of-some c (x ∷ s) i e = elim (Bool-cases (x == c)) [
  | inl here ↦ ([], s, ap (λ y. y ∷ s) ((==_iff x c).0 here))
  | inr other ↦ elim (Option-cases (find_first_of c s)) [
    | inr (j, found) ↦ let (a, b, f) = find_first_of-some c s j found in (x ∷ a, b, ap (◌∷◌ x) f)
    | inl missing ↦
        let e' : (if x == c then some 0 else Option.map suc (find_first_of c s)) ≡ some i = e in
        absurd (some_not_none i (rw (other, missing) at e'))
  ]
]
  where
    some_not_none : (i : ℕ) → none ≡ some i → ⊥
    some_not_none i e = cc

-- The path in front of the second segment, with what is no segment at its start.
abbrev pub front_text : Url → Bytes
front_text u = take (reach u) (get u id_path)

-- When "./" is put in front of the path: without it, with no authority, a first segment with a ':'
-- would start the URL.
abbrev pub WantsDot : Bool → Url → Type 0
WantsDot true u =
    (has_authority u ≡ false)
    × ((u.nseg_ == 0) ≡ false)
    × (equal (take 1 (get u id_path)) (codes "/") ≡ false)
    × ((a : Bytes) × (b : Bytes) × (front_text u ≡ a ++ b':' ∷ b))
WantsDot false u =
    (has_authority u ≡ true)
    ⊎ ((u.nseg_ == 0) ≡ true)
    ⊎ (equal (take 1 (get u id_path)) (codes "/") ≡ true)
    ⊎ All (λ c. (c == b':') ≡ false) (front_text u)

-- No ':' in the first segment `path`, where there is no authority and a segment.
abbrev pub IsSafe : Url → Bytes → Type 0
IsSafe u path = (has_authority u ≡ true) ⊎ ((u.nseg_ == 0) ≡ true) ⊎ NoColonFirst path

-- The character at the start of the path, if it has one.
first_slash :
    (u : Url)
    → IsValid u
    → (get u id_path ≡ [])
      ⊎ (equal (slice (offset u id_path) 1 u.chars) (codes "/")
          ≡ equal (take 1 (get u id_path)) (codes "/"))
first_slash u valid = start (get u id_path) refl
  where
    start :
        (path : Bytes)
        → get u id_path ≡ path
        → (path ≡ [])
          ⊎ (equal (slice (offset u id_path) 1 u.chars) (codes "/")
              ≡ equal (take 1 (get u id_path)) (codes "/"))
    start [] e = inl refl
    start (c ∷ path) e =
        inr (ap (λ t. equal t (codes "/")) (front-path valid 1 (omega (arith, ap length e))))

empty_front : (u : Url) → get u id_path ≡ [] → All (λ c. (c == b':') ≡ false) (front_text u)
empty_front u e = rw e (nothing _)
  where
    nothing : (n : ℕ) → All (λ c. (c == b':') ≡ false) (take n [])
    nothing zero = tt
    nothing (suc n) = tt

-- `need_dot` stops at once.
early :
    (u : Url)
    → IsValid u
    → (has_authority u || u.nseg_ == 0 || equal (slice (offset u id_path) 1 u.chars) (codes "/"))
      ≡ true
    → WantsDot false u × IsSafe u (get u id_path)
early u valid out = elim (Bool-cases (has_authority u)) [
  | inl auth ↦ (inl auth, inl auth)
  | inr no_auth ↦ elim (Bool-cases (u.nseg_ == 0)) [
    | inl empty ↦ (inr (inl empty), inr (inl empty))
    | inr some_segments ↦
        let slash : equal (slice (offset u id_path) 1 u.chars) (codes "/") ≡ true =
          ground (arith, out, no_auth, some_segments) in
        let safe : NoColonFirst (get u id_path) = rw (get-eq valid id_path (omega arith)) (
          slash-NoColonFirst (offset u id_query - offset u id_path)
            (drop (offset u id_path) u.chars) slash) in
        (
          elim (first_slash u valid) [
            | inl none' ↦ inr (inr (inr (empty_front u none')))
            | inr same ↦ inr (inr (inl (sym same ∙ slash)))
          ],
          inr (inr safe),
        )
  ]
]

-- What `need_dot` says: with no "./" the path has no ':' in its first segment.
pub need_dot-lem :
    (u : Url)
    → IsValid u
    → HasSegments u
    → (dot : Bool) × (need_dot u ≡ ok dot)
      × WantsDot dot u
      × IsSafe u (if dot then codes "./" ++ get u id_path else get u id_path)
unfolding need_dot
need_dot-lem u valid many =
    let p = offset u id_path in
    let path = get u id_path in
    elim (Bool-cases (has_authority u || u.nseg_ == 0 || equal (slice p 1 u.chars) (codes "/"))) [
      | inl out ↦ let (why, safe) = early u valid out in (false, rw out refl, why, safe)
      | inr look ↦
          let more : (u.nseg_ == 0) ≡ false = ground (arith, look) in
          let (next, e, first, prefix, last, at) = segment-one u valid many more in
          let size_path = length-get valid id_path (omega arith) in
          let text = front-path valid (next - p) (omega (arith, size_path, last)) in
          let reached : next - p ≡ reach u = omega (arith, at) in
          let front = text ∙ ap (λ n. take n path) reached in
          elim (Option-cases (find_first_of b':' (slice p (next - p) u.chars))) [
            | inl missing ↦ (
              false,
              rw (look, e, missing) refl,
              inr (
                  inr (
                    inr (
                      subst (All (λ c. (c == b':') ≡ false)) front
                        (find_first_of-none b':' _ missing)))),
              inr (
                  inr (
                    missing-NoColonFirst path (slice p (next - p) u.chars) (next - p) text
                      (omega (arith, first)) missing)),
            )
            | inr (i, found) ↦ (
              true,
              rw (look, e, found) refl,
              wanted look (find_first_of-some b':' (slice p (next - p) u.chars) i found) front,
              inr (inr (dot-NoColonFirst path)),
            )
          ]
    ]
  where
    wanted :
        {text : Bytes}
        → (has_authority u
            || u.nseg_ == 0
            || equal (slice (offset u id_path) 1 u.chars) (codes "/"))
          ≡ false
        → (a : Bytes) × (b : Bytes) × (text ≡ a ++ b':' ∷ b)
        → text ≡ front_text u
        → WantsDot true u
    wanted look (a, b, e) front = (
      ground (arith, look),
      ground (arith, look),
      elim (first_slash u valid) [
        | inl none' ↦ rw none' refl
        | inr same ↦ sym same ∙ ground (arith, look)
      ],
      (a, b, sym front ∙ e),
    )
