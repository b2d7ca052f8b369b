-- ===== src/Base/Slices.antt =====
-- Parts of a buffer, and writes into one.
use Prim.Native.Nat.{ℕ, zero, suc, ◌+◌, ◌-◌, ◌≤◌}
use mathlib.Core.List.{List, [], ◌∷◌, ◌++◌, append_assoc, append-nil}
use mathlib.Core.Path.{◌≡◌, refl, ap, ap₂, sym, ◌∙◌}
use native.Mathlib.Omega.{arith}
use boost_url.Base.Lists.{
  length, take, drop, length-drop, length-take, length-append, drop-all, take-append,
}

module _ {ℓ} {A : Type ℓ} where
  -- The `n` elements from index `a` on.
  abbrev pub slice : ℕ → ℕ → List A → List A
  slice a n xs = take n (drop a xs)

  -- `memcpy(buf + at, s.data(), s.size())`: what stands behind the end of `s` stays.
  abbrev pub write : List A → ℕ → List A → List A
  write buf at s = take at buf ++ (s ++ drop (at + length s) buf)

  pub take-left : (n : ℕ) (xs ys : List A) → n ≤ length xs → take n (xs ++ ys) ≡ take n xs
  take-left zero xs ys h = refl
  take-left (suc n) [] ys h = absurd (omega arith)
  take-left (suc n) (x ∷ xs) ys h = ap (◌∷◌ x) (take-left n xs ys (omega arith))

  pub drop-left : (n : ℕ) (xs ys : List A) → n ≤ length xs → drop n (xs ++ ys) ≡ drop n xs ++ ys
  drop-left zero xs ys h = refl
  drop-left (suc n) [] ys h = absurd (omega arith)
  drop-left (suc n) (x ∷ xs) ys h = drop-left n xs ys (omega arith)

  pub drop-right : (n m : ℕ) (xs ys : List A) → n ≡ length xs + m → drop n (xs ++ ys) ≡ drop m ys
  drop-right n m [] ys h = ap (λ k. drop k ys) (omega (arith, h))
  drop-right zero m (x ∷ xs) ys h = absurd (omega arith)
  drop-right (suc n) m (x ∷ xs) ys h = drop-right n m xs ys (omega arith)

  pub slice-left :
      (a n : ℕ) (xs ys : List A) → a + n ≤ length xs → slice a n (xs ++ ys) ≡ slice a n xs
  slice-left a n xs ys h =
      ap (take n) (drop-left a xs ys (omega arith))
      ∙ take-left n (drop a xs) ys (omega (arith, length-drop a xs))

  pub slice-right :
      (a n m : ℕ) (xs ys : List A) → a ≡ length xs + m → slice a n (xs ++ ys) ≡ slice m n ys
  slice-right a n m xs ys h = ap (take n) (drop-right a m xs ys h)

  pub slice-take : (a n m : ℕ) (xs : List A) → a + n ≤ m → slice a n (take m xs) ≡ slice a n xs
  slice-take a zero m xs h = refl
  slice-take a (suc n) zero xs h = absurd (omega arith)
  slice-take zero (suc n) (suc m) [] h = refl
  slice-take zero (suc n) (suc m) (x ∷ xs) h = ap (◌∷◌ x) (slice-take zero n m xs (omega arith))
  slice-take (suc a) (suc n) (suc m) [] h = refl
  slice-take (suc a) (suc n) (suc m) (x ∷ xs) h = slice-take a (suc n) m xs (omega arith)

  drop-nil : (n : ℕ) → drop {A = A} n [] ≡ []
  drop-nil zero = refl
  drop-nil (suc n) = refl

  pub drop-drop : (a b : ℕ) (xs : List A) → drop a (drop b xs) ≡ drop (b + a) xs
  drop-drop a zero xs = ap (λ k. drop k xs) (omega arith)
  drop-drop a (suc b) [] = drop-nil a ∙ sym (drop-nil (suc b + a))
  drop-drop a (suc b) (x ∷ xs) =
      drop-drop a b xs
      ∙ ap (λ k. drop k (x ∷ xs)) (let e : suc (b + a) ≡ suc b + a = omega arith in e)

  pub take-all : (n : ℕ) (xs : List A) → length xs ≤ n → take n xs ≡ xs
  take-all zero [] h = refl
  take-all zero (x ∷ xs) h = absurd (omega arith)
  take-all (suc n) [] h = refl
  take-all (suc n) (x ∷ xs) h = ap (◌∷◌ x) (take-all n xs (omega arith))

  take-nil : (n : ℕ) → take {A = A} n [] ≡ []
  take-nil zero = refl
  take-nil (suc n) = refl

  take-exact : (n : ℕ) (xs ys : List A) → n ≡ length xs → take n (xs ++ ys) ≡ xs
  take-exact n xs ys h = ap (λ k. take k (xs ++ ys)) h ∙ take-append xs ys

  -- A write over a part of the same length replaces that part.
  pub write-replace :
      (at : ℕ) (xs ys zs t : List A)
      → at ≡ length xs
      → length t ≡ length ys
      → write (xs ++ (ys ++ zs)) at t ≡ xs ++ (t ++ zs)
  write-replace at xs ys zs t h k = ap₂ ◌++◌ (take-exact at xs (ys ++ zs) h) (
      ap (◌++◌ t) (
        drop-right (at + length t) (length ys) xs (ys ++ zs) (omega arith)
        ∙ drop-right (length ys) 0 ys zs (omega arith)))

  pub write-grown :
      (at : ℕ) (xs t : List A) → at + length t ≡ length xs → write xs at t ≡ take at xs ++ t
  write-grown at xs t h =
      ap (λ r. take at xs ++ (t ++ r)) (drop-all (at + length t) xs (omega arith))
      ∙ ap (◌++◌ (take at xs)) (append-nil t)

  pub take-drop : (a n : ℕ) (xs : List A) → take (a + n) xs ≡ take a xs ++ slice a n xs
  take-drop zero n xs = ap (λ k. take k xs) (omega arith)
  take-drop (suc a) n [] =
      ap (λ k. take k []) (let e : suc a + n ≡ suc (a + n) = omega arith in e)
      ∙ sym (ap (take n) (drop-nil (suc a)) ∙ take-nil n)
  take-drop (suc a) n (x ∷ xs) =
      ap (λ k. take k (x ∷ xs)) (let e : suc a + n ≡ suc (a + n) = omega arith in e)
      ∙ ap (◌∷◌ x) (take-drop a n xs)

  -- Moving the tail left over a part that shrinks from [a, b) to `m` elements.
  pub shrunk :
      (a b m : ℕ) (xs : List A)
      → a + m ≤ b
      → b ≤ length xs
      → take (length xs - (b - a - m)) (write xs (b - (b - a - m)) (drop b xs))
        ≡ take a xs ++ (slice a m xs ++ drop b xs)
  shrunk a b m xs h k =
      let at : b - (b - a - m) ≡ a + m = omega arith in
      let rest = drop (b - (b - a - m) + length (drop b xs)) xs in
      let kept : length (take (a + m) xs ++ drop b xs) ≡ length xs - (b - a - m) = omega (
        arith,
        length-append (take (a + m) xs) (drop b xs),
        length-take (a + m) xs (omega arith),
        length-drop b xs,
      ) in
      ap (λ n. take (length xs - (b - a - m)) (take n xs ++ (drop b xs ++ rest))) at
      ∙ ap (take (length xs - (b - a - m))) (sym (append_assoc (take (a + m) xs) (drop b xs) rest))
      ∙ take-exact (length xs - (b - a - m)) (take (a + m) xs ++ drop b xs) rest (sym kept)
      ∙ ap (λ l. l ++ drop b xs) (take-drop a m xs)
      ∙ append_assoc (take a xs) (slice a m xs) (drop b xs)

  -- Moving the tail right over a part that grows from [a, b) to `m` elements.
  pub grown :
      (a b m : ℕ) (xs new : List A)
      → a ≤ b
      → b ≤ a + m
      → b ≤ length xs
      → length new ≡ m - (b - a)
      → write (xs ++ new) (b + (m - (b - a))) (drop b xs)
        ≡ take a xs ++ (slice a m (xs ++ new) ++ drop b xs)
  grown a b m xs new h k l e =
      let at : b + (m - (b - a)) ≡ a + m = omega arith in
      write-grown (b + (m - (b - a))) (xs ++ new) (drop b xs)
        (omega (arith, length-append xs new, length-drop b xs))
      ∙ ap (λ n. take n (xs ++ new) ++ drop b xs) at
      ∙ ap (λ l. l ++ drop b xs) (take-drop a m (xs ++ new))
      ∙ ap (λ l. (l ++ slice a m (xs ++ new)) ++ drop b xs) (take-left a xs new (omega arith))
      ∙ append_assoc (take a xs) (slice a m (xs ++ new)) (drop b xs)

  pub length-slice : (a n : ℕ) (xs : List A) → a + n ≤ length xs → length (slice a n xs) ≡ n
  length-slice a n xs h = length-take n (drop a xs) (omega (arith, length-drop a xs))
