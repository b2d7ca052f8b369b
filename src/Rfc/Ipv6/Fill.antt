-- ===== src/Rfc/Ipv6/Fill.antt =====
-- What `ipv6_address_rule` stores, and how `fill_zeros` makes the address of it.
use boost_url.Base.{
  ℕ, suc, ◌+◌, ◌-◌, ◌*◌, ◌≤◌, ◌≡◌, refl, sym, ap, ◌∙◌, ◌⊎◌, inl, inr, Bool, false, not, Option,
  none, some, [], ◌∷◌, ◌++◌, append_assoc, append-nil, arith, ◌==◌, Bool-cases, ==_iff, Bytes,
  length, take, replicate, length-append, length-replicate, take-append,
}
use boost_url.Base.Slices.{
  slice, write, drop-right, write-replace, write-grown, take-drop, length-slice,
}
use boost_url.Rfc.Ipv6.{fill_zeros, is_none}
use boost_url.Rfc.Ipv6.Forms.{left_with, right_with, IsIpv6, Parts}
use boost_url.Url.{size}
use mathlib.Core.Path.{ap₂, subst}

abbrev pub zeros : ℕ → Bytes
zeros k = replicate k 0

abbrev pub length-zeros : (k : ℕ) → length (zeros k) ≡ k
length-zeros k = length-replicate {A = ℕ} k 0

-- The stored bytes, with `n` words needed and two bytes for the "::".
abbrev pub Stored : Option ℕ → ℕ → Bytes → Bytes → Bytes → Type 0
Stored none n left right raw = (raw ≡ left) × (right ≡ []) × (length left ≡ 2 * (8 - n)) × (n ≤ 8)
Stored (some b) n left right raw =
    (raw ≡ left ++ 0 ∷ 0 ∷ right)
    × (length left ≡ 2 * (7 - b))
    × (length right ≡ 2 * (b - n))
    × (n ≤ b)
    × (b ≤ 7)

-- `j` words more.
pub Stored-append :
    (b : Option ℕ) (n m j : ℕ) (left right raw x : Bytes)
    → Stored b m left right raw
    → m ≡ n + j
    → length x ≡ 2 * j
    → Stored b n
        (left_with (not (is_none b)) left x)
        (right_with (not (is_none b)) right x)
        (raw ++ x)
Stored-append none n m j left right raw x (e, f, k, le) more size = (
  ap (λ r. r ++ x) e,
  f,
  omega (arith, length-append left x, k, le, more, size),
  omega (arith, le, more),
)
Stored-append (some b) n m j left right raw x (e, k, l, le, top) more size = (
  ap (λ r. r ++ x) e ∙ append_assoc left (0 ∷ 0 ∷ right) x,
  k,
  omega (arith, length-append right x, l, le, more, size),
  omega (arith, le, more),
  top,
)

pub length-Stored :
    (b : Option ℕ) (n : ℕ) (left right raw : Bytes)
    → Stored b n left right raw
    → (length raw ≡ 2 * (8 - n)) × (n ≤ 8)
length-Stored none n left right raw (e, f, k, le) = (ap length e ∙ k, le)
length-Stored (some b) n left right raw (e, k, l, le, top) = (
  omega (arith, ap length e, length-append left (0 ∷ 0 ∷ right), k, l, le, top),
  omega (arith, le, top),
)

nil-of : (xs : Bytes) → length xs ≡ 0 → xs ≡ []
nil-of [] e = refl
nil-of (x ∷ xs) e = absurd (omega (arith, e))

-- The bytes of an address with a "::".
module _ (b n : ℕ) (left right bytes : Bytes) (k : length left ≡ 2 * (7 - b))
    (l : length right ≡ 2 * (b - n)) (le : n ≤ b) (top : b ≤ 7)
    (e : bytes ≡ (left ++ 0 ∷ 0 ∷ right) ++ zeros (2 * n)) where
  size_bytes : length bytes ≡ 16
  size_bytes = omega (
    arith,
    ap length e,
    length-append (left ++ 0 ∷ 0 ∷ right) (zeros (2 * n)),
    length-append left (0 ∷ 0 ∷ right),
    length-zeros (2 * n),
    k,
    l,
    le,
    top,
  )

  behind : bytes ≡ left ++ (0 ∷ 0 ∷ (right ++ zeros (2 * n)))
  behind = e ∙ append_assoc left (0 ∷ 0 ∷ right) (zeros (2 * n))

  take-left_part : (m : ℕ) → m ≡ length left → take m bytes ≡ left
  take-left_part m f = rw (f, behind) (take-append left (0 ∷ 0 ∷ (right ++ zeros (2 * n))))

  slice-right_part : (a m : ℕ) → a ≡ length left + 2 → m ≡ length right → slice a m bytes ≡ right
  slice-right_part a m f g =
      rw (g, behind)
        (ap (take (length right)) (drop-right a 2 left (0 ∷ 0 ∷ (right ++ zeros (2 * n))) f)
          ∙ take-append right (zeros (2 * n)))

  -- The words behind the "::" move to the end, and zeros take the place in between.
  moved :
      (at i j : ℕ) (t : Bytes)
      → at ≡ length left
      → i ≡ length right
      → t ≡ right
      → j ≡ 2 * n + 2
      → write (write bytes (16 - i) t) at (zeros j) ≡ left ++ (zeros (2 * n + 2) ++ right)
  moved at i j t f g same h =
      let m = 16 - i - length left in
      let ys = slice (length left) m bytes in
      let front : take (16 - i) bytes ≡ left ++ ys =
        ap (λ q. take q bytes)
          (let q : 16 - i ≡ length left + m = omega (arith, g, k, l, le, top) in q)
        ∙ take-drop (length left) m bytes
        ∙ ap (λ q. q ++ ys) (take-left_part (length left) refl) in
      let size_ys : length ys ≡ m =
        length-slice (length left) m bytes (omega (arith, size_bytes, g, k, l, le, top)) in
      let first : write bytes (16 - i) t ≡ left ++ (ys ++ t) =
        write-grown (16 - i) bytes t (omega (arith, ap length same, g, size_bytes, l, le, top))
        ∙ ap (λ q. q ++ t) front
        ∙ append_assoc left ys t in
      ap (λ q. write q at (zeros j)) first
      ∙ write-replace at left ys t (zeros j) f
          (omega (arith, length-zeros j, size_ys, g, h, k, l, le, top))
      ∙ ap₂ (λ q r. left ++ (zeros q ++ r)) h same

  pub fill_some : fill_zeros (some b) n bytes ≡ left ++ (zeros (2 * n + 2) ++ right)
  unfolding fill_zeros
  fill_some = elim (Bool-cases (b == n)) [
    | inl last ↦
        let same : b ≡ n = (==_iff b n).0 last in
        let none_right : right ≡ [] = nil-of right (omega (arith, l, same)) in
        let at = 2 * (7 - n) in
        rw last (
          write-grown at bytes (zeros (16 - at))
            (omega (arith, length-zeros (16 - at), size_bytes, le, top))
          ∙ ap₂ ◌++◌ (take-left_part at (omega (arith, k, same))) (
              ap zeros (let q : 16 - at ≡ 2 * n + 2 = omega (arith, le, top) in q)
              ∙ sym (append-nil (zeros (2 * n + 2)))
              ∙ ap (◌++◌ (zeros (2 * n + 2))) (sym none_right)))
    | inr other ↦ elim (Bool-cases (b == 7)) [
      | inl first ↦
          let same : b ≡ 7 = (==_iff b 7).0 first in
          rw (other, first)
            (moved 0 (2 * (b - n)) (16 - 2 * (b - n)) (slice 2 (2 * (b - n)) bytes)
              (omega (arith, k, same)) (sym l)
              (slice-right_part 2 (2 * (b - n)) (omega (arith, k, same)) (sym l))
              (omega (arith, le, same)))
      | inr middle ↦
          rw (other, middle)
            (moved (2 * (7 - b)) (2 * (b - n)) (16 - (2 * (7 - b) + 2 * (b - n)))
              (slice (2 * (7 - b) + 2) (2 * (b - n)) bytes) (sym k) (sym l)
              (slice-right_part (2 * (7 - b) + 2) (2 * (b - n)) (omega (arith, k)) (sym l))
              (omega (arith, le, top)))
    ]
  ]

-- A "::" was read.
abbrev pub has_gap : Option ℕ → Bool
has_gap b = not (is_none b)

-- At the end: no word is needed, or there is a "::".
pub finish :
    (b : Option ℕ) (n : ℕ) (t left right raw bytes : Bytes)
    → Parts n (has_gap b) t left right
    → Stored b n left right raw
    → bytes ≡ raw ++ zeros (2 * n)
    → (n ≡ 0) ⊎ (is_none b ≡ false)
    → IsIpv6 t (fill_zeros b n bytes)
unfolding fill_zeros
finish none n t left right raw bytes parts (e, f, k, le) buffer (inr some') = absurd (cc)
finish none n t left right raw bytes parts (e, f, k, le) buffer (inl full) =
    let same : left ≡ bytes = sym (buffer ∙ rw full (append-nil raw ∙ e)) in
    let parts0 : Parts 0 false t left right = subst (λ m. Parts m false t left right) full parts in
    (
      omega (arith, ap length same, k, full),
      inl (right, subst (λ v. Parts 0 false t v right) same parts0),
    )
finish (some b) n t left right raw bytes parts (e, k, l, le, top) buffer _ =
    let whole =
      fill_some b n left right bytes k l le top (buffer ∙ ap (λ r. r ++ zeros (2 * n)) e) in
    (
      omega (
        arith,
        ap length whole,
        length-append left (zeros (2 * n + 2) ++ right),
        length-append (zeros (2 * n + 2)) right,
        length-zeros (2 * n + 2),
        k,
        l,
        le,
        top,
      ),
      inr (n, left, right, parts, whole),
    )

pub zeros_two : (n : ℕ) → zeros (2 * suc n) ≡ (0 ∷ 0 ∷ []) ++ zeros (2 * n)
zeros_two n = ap zeros (let e : 2 * suc n ≡ suc (suc (2 * n)) = omega arith in e)
