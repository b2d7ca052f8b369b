-- ===== src/Compare/Zero.antt =====
-- When the comparisons return 0.
use boost_url.Base.{
  ℕ, suc, ◌+◌, ◌<◌, ◌≡◌, refl, sym, ap, ◌∙◌, ◌≢◌, ◌↔◌, inl, inr, Option, none, some, [], ◌∷◌, arith,
  Bytes, length, Option-cases, All,
}
use boost_url.Base.Integers.{ℤ, pos}
use boost_url.Compare.{
  compare_chars, compare_sizes, first_difference, decided, compare_by, compare, compare_encoded,
}
use boost_url.Compare.Laws.{outcome, outcome-same, outcome-differ, compare_encoded-Reads, Reads}

compare_chars-zero : (c d : ℕ) (v : ℤ) → compare_chars c d ≡ some v → v ≢ pos 0
unfolding compare_chars
compare_chars-zero c d v h z = ground arith

compare_chars-none : (c d : ℕ) → c < 256 → d < 256 → compare_chars c d ≡ none → c ≡ d
unfolding compare_chars
compare_chars-none c d hc hd h = ground arith

compare_chars-same : (c : ℕ) → compare_chars c c ≡ none
unfolding compare_chars
compare_chars-same c = ground arith

compare_sizes-zero : (n m : ℕ) → compare_sizes n m ≡ pos 0 → n ≡ m
unfolding compare_sizes
compare_sizes-zero n m h = ground arith

compare_sizes-same : (n : ℕ) → compare_sizes n n ≡ pos 0
unfolding compare_sizes
compare_sizes-same n = ground arith

outcome-zero :
    (n : ℕ) (a b : Bytes)
    → All (λ c. c < 256) a
    → All (λ c. c < 256) b
    → outcome (λ c. c) n a b ≡ pos 0
    → a ≡ b
unfolding decided
outcome-zero n [] [] h k z = refl
outcome-zero n [] (d ∷ b) h k z =
    let sizes : compare_sizes (n + 0) (n + suc (length b)) ≡ pos 0 = unfold first_difference in z in
    absurd (omega (arith, compare_sizes-zero (n + 0) (n + suc (length b)) sizes))
outcome-zero n (c ∷ a) [] h k z =
    let sizes : compare_sizes (n + suc (length a)) (n + 0) ≡ pos 0 = unfold first_difference in z in
    absurd (omega (arith, compare_sizes-zero (n + suc (length a)) (n + 0) sizes))
outcome-zero n (c ∷ a) (d ∷ b) (h, hs) (k, ks) z = elim (Option-cases (compare_chars c d)) [
  | inl same ↦ rw (
    compare_chars-none c d h k same,
    outcome-zero (n + 1) a b hs ks (sym (outcome-same (λ c. c) n c d a b same) ∙ z),
  )
  | inr (v, differ) ↦
      absurd
        (compare_chars-zero c d v differ (sym (outcome-differ (λ c. c) n c d a b v differ) ∙ z))
]

first_difference-same : (f : ℕ → ℕ) (a : Bytes) → first_difference f a a ≡ none
unfolding first_difference
first_difference-same f [] = refl
first_difference-same f (c ∷ a) =
    rw (compare_chars-same (f c), first_difference) (first_difference-same f a)

compare-zero :
    (a b : Bytes) → All (λ c. c < 256) a → All (λ c. c < 256) b → compare a b ≡ pos 0 → a ≡ b
unfolding compare compare_by
compare-zero a b h k z =
    let left : 0 + length a ≡ length a = omega arith in
    let right : 0 + length b ≡ length b = omega arith in
    let whole : outcome (λ c. c) 0 a b ≡ pos 0 = rw (left, right) z in outcome-zero 0 a b h k whole

compare-same : (a : Bytes) → compare a a ≡ pos 0
unfolding compare compare_by decided
compare-same a = rw (first_difference-same (λ c. c) a) (compare_sizes-same (length a))

abbrev or_one : Option ℤ → ℤ
or_one none = pos 1
or_one (some d) = d

-- On percent-encodings of two byte strings, `compare_encoded` returns 0 if and only if these are
-- the same.
pub compare_encoded_zero :
    (x y a b : Bytes)
    → Reads x a
    → Reads y b
    → All (λ c. c < 256) a
    → All (λ c. c < 256) b
    → (compare_encoded x y ≡ some (pos 0)) ↔ (a ≡ b)
compare_encoded_zero x y a b r q h k =
    let e = (compare_encoded-Reads x y a b r q).0 in
    (
      λ z. compare-zero a b h k (ap or_one (sym e ∙ z)),
      λ same. e ∙ ap some (rw same (compare-same b)),
    )
