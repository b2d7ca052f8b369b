-- ===== src/Compare/Laws.antt =====
-- The encoded comparisons compare what the strings stand for.
-- `x` is a percent-encoding of `a`.
use boost_url.Base.{
  ℕ, zero, suc, ◌+◌, ◌≤◌, ◌≡◌, refl, sym, ap, ◌∙◌, inl, inr, false, none, some, [], ◌∷◌, arith,
  ◌==◌, Bytes, length, Option-cases,
}
use boost_url.Base.Integers.{ℤ}
use boost_url.Chars.{to_lower}
use boost_url.Compare.{
  compare_chars, compare_sizes, first_difference, decided, compare_by, compare, ci_compare,
  pop_encoded_front, compare_rest, compare_loop, compare_encoded, ci_compare_encoded,
}
use boost_url.Pct.Decode.{pct_decode_bytes_unchecked, decode_hex}
use boost_url.Pct.View.{digits_behind}

pub data Reads : Bytes → Bytes → Type 0 where
  at_end : Reads [] []
  char : {c : ℕ} {s a : Bytes} → (c == b'%') ≡ false → Reads s a → Reads (c ∷ s) (c ∷ a)
  octet : (h l : ℕ) {s a : Bytes} → Reads s a → Reads (b'%' ∷ h ∷ l ∷ s) (decode_hex h l ∷ a)

pub bytes_unchecked-char :
    (c : ℕ) (s : Bytes)
    → (c == b'%') ≡ false
    → pct_decode_bytes_unchecked (c ∷ s) ≡ suc (pct_decode_bytes_unchecked s)
unfolding pct_decode_bytes_unchecked
bytes_unchecked-char c [] h = rw h
bytes_unchecked-char c (d ∷ []) h = rw (h, pct_decode_bytes_unchecked)
bytes_unchecked-char c (d ∷ e ∷ s) h = rw (h, pct_decode_bytes_unchecked)

bytes_unchecked-Reads : {x a : Bytes} → Reads x a → pct_decode_bytes_unchecked x ≡ length a
bytes_unchecked-Reads at_end = unfold pct_decode_bytes_unchecked in refl
bytes_unchecked-Reads (char {c} {s} {a} h r) =
    bytes_unchecked-char c s h ∙ ap suc (bytes_unchecked-Reads r)
bytes_unchecked-Reads (octet h l {s} {a} r) =
    (let e : pct_decode_bytes_unchecked (b'%' ∷ h ∷ l ∷ s) ≡ suc (pct_decode_bytes_unchecked s) =
        unfold pct_decode_bytes_unchecked in refl in
      e)
    ∙ ap suc (bytes_unchecked-Reads r)

-- A string that is not empty is a character or an escape, and the rest.
pub Reads-cons :
    (c : ℕ) (s a : Bytes)
    → Reads (c ∷ s) a
    → (b : ℕ) × (rest : Bytes) × (more : Bytes) × (pop_encoded_front c s ≡ some (b, rest))
      × (a ≡ b ∷ more)
      × Reads rest more
unfolding pop_encoded_front digits_behind
Reads-cons c s a (char {a = more} h r) = (c, s, more, rw h, refl, r)
Reads-cons c s a (octet h l {s = rest} {a = more} r) = (decode_hex h l, rest, more, refl, refl, r)

-- The outcome of a comparison of what is left, behind `n` characters of each string.
abbrev pub outcome : (ℕ → ℕ) → ℕ → Bytes → Bytes → ℤ
outcome f n a b = decided (first_difference f a b) (n + length a) (n + length b)

pub outcome-same :
    (f : ℕ → ℕ) (n c d : ℕ) (a b : Bytes)
    → compare_chars (f c) (f d) ≡ none
    → outcome f n (c ∷ a) (d ∷ b) ≡ outcome f (n + 1) a b
outcome-same f n c d a b same =
    let left : n + suc (length a) ≡ n + 1 + length a = omega arith in
    let right : n + suc (length b) ≡ n + 1 + length b = omega arith in
    let next : first_difference f (c ∷ a) (d ∷ b) ≡ first_difference f a b =
      unfold first_difference in rw (same, first_difference) in
    rw (next, left, right)

pub outcome-differ :
    (f : ℕ → ℕ) (n c d : ℕ) (a b : Bytes) (v : ℤ)
    → compare_chars (f c) (f d) ≡ some v
    → outcome f n (c ∷ a) (d ∷ b) ≡ v
outcome-differ f n c d a b v differ =
    let next : first_difference f (c ∷ a) (d ∷ b) ≡ some v =
      unfold first_difference in rw (differ, first_difference) in
    rw next (unfold decided in refl)

pub Reads-nil : (a : Bytes) → Reads [] a → a ≡ []
Reads-nil a at_end = refl

compare_rest-Reads :
    (n0 n1 : ℕ) (x y a b : Bytes)
    → Reads x a
    → Reads y b
    → compare_rest n0 n1 x y ≡ compare_sizes (n0 + length a) (n1 + length b)
unfolding compare_rest
compare_rest-Reads n0 n1 x y a b r q = rw (bytes_unchecked-Reads r, bytes_unchecked-Reads q)

compare_loop-Reads :
    (f : ℕ → ℕ) (fuel n : ℕ) (x y a b : Bytes)
    → Reads x a
    → Reads y b
    → length a ≤ fuel
    → compare_loop f fuel n n x y ≡ some (outcome f n a b)
unfolding compare_loop
compare_loop-Reads f fuel n [] y a b r q le =
    ap some (compare_rest-Reads n n [] y a b r q)
    ∙ rw (Reads-nil a r) (unfold first_difference decided in refl)
compare_loop-Reads f fuel n (c ∷ s) [] a b r q le =
    let (a0, rest, more, p, e, r') = Reads-cons c s a r in
    ap some (compare_rest-Reads n n (c ∷ s) [] a b r q)
    ∙ rw (Reads-nil b q, e) (unfold first_difference decided in refl)
compare_loop-Reads f zero n (c ∷ s) (d ∷ t) a b r q le =
    let (a0, rest, more, p, e, r') = Reads-cons c s a r in absurd (omega (arith, ap length e))
compare_loop-Reads f (suc fuel) n (c ∷ s) (d ∷ t) a b r q le =
    let (a0, rest_a, more_a, p, e, r') = Reads-cons c s a r in
    let (b0, rest_b, more_b, p', e', q') = Reads-cons d t b q in
    let rec =
      compare_loop-Reads f fuel (n + 1) rest_a rest_b more_a more_b r' q'
        (omega (arith, ap length e)) in
    elim (Option-cases (compare_chars (f a0) (f b0))) [
      | inl same ↦
          rw (e, e', p, compare_loop, p', compare_loop, same)
            (rec ∙ ap some (sym (outcome-same f n a0 b0 more_a more_b same)))
      | inr (v, differ) ↦
          rw (e, e', p, compare_loop, p', compare_loop, differ)
            (ap some (sym (outcome-differ f n a0 b0 more_a more_b v differ)))
    ]

pub Reads-length : {x a : Bytes} → Reads x a → length a ≤ length x
Reads-length at_end = omega arith
Reads-length (char h r) = omega (arith, Reads-length r)
Reads-length (octet h l r) = omega (arith, Reads-length r)

-- On percent-encodings of any two byte strings, `compare_encoded` and `ci_compare_encoded` end
-- within as many rounds as the first has characters, and return what `compare` and `ci_compare`
-- return on the byte strings.
pub compare_encoded-Reads :
    (x y a b : Bytes)
    → Reads x a
    → Reads y b
    → (compare_encoded x y ≡ some (compare a b)) × (ci_compare_encoded x y ≡ some (ci_compare a b))
unfolding compare_encoded ci_compare_encoded compare ci_compare compare_by
compare_encoded-Reads x y a b r q =
    let n : 0 + length a ≡ length a = omega arith in
    let m : 0 + length b ≡ length b = omega arith in
    (
      rw (n, m) at (compare_loop-Reads (λ c. c) (length x) 0 x y a b r q (Reads-length r)),
      rw (n, m) at (compare_loop-Reads to_lower (length x) 0 x y a b r q (Reads-length r)),
    )
