-- ===== src/Compare.antt =====
-- Comparisons of plain and of percent-encoded strings: detail/impl/normalize.ipp. A `char` is
-- compared as a signed 8-bit number.
pub mod Laws
pub mod Zero
pub mod Digest
use boost_url.Base.{
  ℕ, zero, suc, ◌+◌, ◌%◌, not, Option, none, some, [], ◌∷◌, ltb, ◌==◌, if◌then◌else◌, Bytes, length,
}
use boost_url.Base.Integers.{ℤ, pos, negsuc}
use boost_url.Chars.{to_lower}
use boost_url.Pct.Decode.{pct_decode_bytes_unchecked}
use boost_url.Pct.View.{digits_behind}
use mathlib.Core.Option

-- The order of `char`: from 128 on, a byte stands for a negative number.
abbrev pub char_rank : ℕ → ℕ
char_rank c = (c + 128) % 256

-- `if(c0 < c1) return -1; if(c1 < c0) return 1;`
unfoldable pub compare_chars : ℕ → ℕ → Option ℤ
compare_chars c0 c1 =
    if ltb (char_rank c0) (char_rank c1)
    then some (negsuc 0)
    else if ltb (char_rank c1) (char_rank c0)
    then some (pos 1)
    else none

unfoldable pub compare_sizes : ℕ → ℕ → ℤ
compare_sizes n0 n1 = if n0 == n1 then pos 0 else if ltb n0 n1 then negsuc 0 else pos 1

-- The loop over the common indices, with what is done to each `char`: the first difference.
unfoldable pub first_difference : (ℕ → ℕ) → Bytes → Bytes → Option ℤ
first_difference f [] rhs = none
first_difference f (a ∷ lhs) [] = none
first_difference f (a ∷ lhs) (b ∷ rhs) = elim (compare_chars (f a) (f b)) [
  | some d ↦ some d
  | none ↦ first_difference f lhs rhs
]

-- The difference that was found, or that of the sizes.
unfoldable pub decided : Option ℤ → ℕ → ℕ → ℤ
unfolding compare_sizes
decided (some d) n0 n1 = d
decided none n0 n1 = compare_sizes n0 n1

unfoldable pub compare_by : (ℕ → ℕ) → Bytes → Bytes → ℤ
unfolding first_difference decided
compare_by f lhs rhs = decided (first_difference f lhs rhs) (length lhs) (length rhs)

unfoldable pub compare : Bytes → Bytes → ℤ
unfolding compare_by
compare = compare_by (λ c. c)

unfoldable pub ci_compare : Bytes → Bytes → ℤ
unfolding compare_by
ci_compare = compare_by to_lower

-- The character in front of a string that starts with `c`, decoded, and the string behind it;
-- `none` where two digits are missing, which the source does not look for. The counter is the
-- caller's.
unfoldable pub pop_encoded_front : ℕ → Bytes → Option (ℕ × Bytes)
unfolding digits_behind
pop_encoded_front c s = if not (c == b'%') then some (c, s) else digits_behind s

-- Behind the loop: what is left is counted too.
unfoldable pub compare_rest : ℕ → ℕ → Bytes → Bytes → ℤ
unfolding compare_sizes pct_decode_bytes_unchecked
compare_rest n0 n1 lhs rhs =
    compare_sizes (n0 + pct_decode_bytes_unchecked lhs) (n1 + pct_decode_bytes_unchecked rhs)

-- The loop of the encoded comparisons, with the numbers of the characters popped so far.
unfoldable pub compare_loop : (ℕ → ℕ) → ℕ → ℕ → ℕ → Bytes → Bytes → Option ℤ
compare_loop f fuel n0 n1 [] rhs = some (compare_rest n0 n1 [] rhs)
compare_loop f fuel n0 n1 (a ∷ lhs) [] = some (compare_rest n0 n1 (a ∷ lhs) [])
compare_loop f zero n0 n1 (a ∷ lhs) (b ∷ rhs) = none
compare_loop f (suc fuel) n0 n1 (a ∷ lhs) (b ∷ rhs) = elim (pop_encoded_front a lhs) [
  | none ↦ none
  | some (c0, lhs1) ↦ elim (pop_encoded_front b rhs) [
    | none ↦ none
    | some (c1, rhs1) ↦ elim (compare_chars (f c0) (f c1)) [
      | some d ↦ some d
      | none ↦ compare_loop f fuel (n0 + 1) (n1 + 1) lhs1 rhs1
    ]
  ]
]

-- A round takes a character at least, so the size of the string is enough fuel.
unfoldable pub compare_encoded : Bytes → Bytes → Option ℤ
unfolding compare_loop
compare_encoded lhs rhs = compare_loop (λ c. c) (length lhs) 0 0 lhs rhs

unfoldable pub ci_compare_encoded : Bytes → Bytes → Option ℤ
unfolding compare_loop
ci_compare_encoded lhs rhs = compare_loop to_lower (length lhs) 0 0 lhs rhs
