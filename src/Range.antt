-- ===== src/Range.antt =====
-- `range_rule` of grammar/impl/range_rule.hpp: one rule for the first element and one for the others.
-- `range<T>`: the string that was matched and the number of its elements. The elements are parsed
-- from the string again when they are visited.
pub mod Laws
pub mod Ends
use boost_url.Base.{
  ℕ, zero, suc, ◌+◌, ◌-◌, ◌^◌, true, false, ltb, leb, if◌then◌else◌, Bytes, length, Result,
  mismatch, err, ok,
}
use boost_url.Grammar.{Rule, consumed}

pub record Range : Type 0 where
  pub string : Bytes
  pub size : ℕ

-- The default of `M`, `std::size_t(-1)`.
abbrev pub no_limit : ℕ
no_limit = 2 ^ 64 - 1

-- The loop, behind `n` elements. Every error of `next` but `range_end` rewinds; no rule of the library
-- ends by that one.
unfoldable pub range_loop {ℓ} : {T : Type ℓ} → Rule T → ℕ → ℕ → ℕ → Bytes → Result (ℕ × Bytes)
range_loop next m zero n s = ok (n, s)
range_loop next m (suc fuel) n s = elim (next s) [
  | err _ ↦ ok (n, s)
  | ok (_, rest) ↦ elim (leb m n) [
    | true ↦ err mismatch
    | false ↦ range_loop next m fuel (n + 1) rest
  ]
]

abbrev pub at_least : ℕ → Bytes → ℕ × Bytes → Result (Range × Bytes)
at_least lo s (n, rest) =
    if ltb n lo then err mismatch else ok (record { string = consumed s rest; size = n }, rest)

-- `range_rule(first, next, N, M)`. An element takes a character at least, so the size of the input is
-- enough fuel.
unfoldable pub range_rule {ℓ κ} : {S : Type ℓ} {T : Type κ} → Rule S → Rule T → ℕ → ℕ → Rule Range
unfolding range_loop consumed
range_rule first next lo hi s = elim (first s) [
  | err _ ↦ at_least lo s (0, s)
  | ok (_, rest) ↦ elim (range_loop next hi (length s) 1 rest) [
    | err why ↦ err why
    | ok found ↦ at_least lo s found
  ]
]
