-- ===== src/DotSegments.antt =====
-- `remove_dot_segments`: include/boost/url/detail/impl/remove_dot_segments.ipp.
pub mod Bounds
pub mod First
use boost_url.Base.{
  ℕ, zero, suc, Bool, true, false, not, ◌&&◌, ◌||◌, Option, none, some, [], ◌∷◌, ◌++◌, ◌==◌,
  if◌then◌else◌, Bytes, codes, length, take, drop, equal,
}

-- `s.starts_with(t)`, and `s == t`.
unfoldable pub starts_with : Bytes → Bytes → Bool
starts_with [] s = true
starts_with (c ∷ t) [] = false
starts_with (c ∷ t) (d ∷ s) = d == c && starts_with t s

-- `find_last_slash`: the output in front of its last '/', if it has one.
unfoldable pub before_last_slash : Bytes → Option Bytes
before_last_slash [] = none
before_last_slash (c ∷ s) = elim (before_last_slash s) [
  | some t ↦ some (c ∷ t)
  | none ↦ if c == b'/' then some [] else none
]

-- `s.find_first_of('/', 1)`: the characters in front of that position, and those from there.
unfoldable pub to_slash : Bytes → Bytes × Bytes
to_slash [] = ([], [])
to_slash (c ∷ s) = if c == b'/' then ([], c ∷ s) else (c ∷ (to_slash s).0, (to_slash s).1)

unfoldable pub first_segment : Bytes → Bytes × Bytes
unfolding to_slash
first_segment [] = ([], [])
first_segment (c ∷ s) = (c ∷ (to_slash s).0, (to_slash s).1)

-- Rule A: "../" and "./" in front. What is written, and what is left.
unfoldable pub rule_a : ℕ → Bool → Bytes → Bytes → Option (Bytes × Bytes)
unfolding starts_with
rule_a fuel rm dest [] = some (dest, [])
rule_a zero rm dest (c ∷ s) = none
rule_a (suc fuel) rm dest (c ∷ s) = elim (starts_with (codes "../") (c ∷ s)) [
  | true ↦ rule_a fuel rm (if rm then dest else dest ++ take 3 (c ∷ s)) (drop 3 (c ∷ s))
  | false ↦ elim (starts_with (codes "./") (c ∷ s)) [
    | true ↦ rule_a fuel rm dest (drop 2 (c ∷ s))
    | false ↦ some (dest, c ∷ s)
  ]
]

-- Rule D.
unfoldable pub rule_d : Bool → Bytes → Bytes → Bytes × Bytes
rule_d rm dest s =
    if equal s (codes ".") || equal s (codes "..")
    then ((if not rm && equal s (codes "..") then dest ++ s else dest), [])
    else (dest, s)

-- "/../": the output behind the last segment is erased.
unfoldable pub up : Bool → Bytes → Bytes → Bytes
unfolding before_last_slash
up rm dest s = elim (before_last_slash dest) [
  | some kept ↦ kept
  | none ↦ if rm then dest else dest ++ take 3 s
]

-- "/..", at the end of the input.
unfoldable pub up_at_end : Bool → Bytes → Bytes → Bytes
unfolding before_last_slash
up_at_end rm dest s = elim (before_last_slash dest) [
  | some kept ↦ kept ++ take 1 s
  | none ↦ if rm then dest ++ take 1 s else dest ++ take 3 s
]

-- One round of the loop with the rules B, C and E.
unfoldable pub dot_step : Bool → Bytes → Bytes → Bytes × Bytes
unfolding starts_with up up_at_end first_segment
dot_step rm dest s =
    if starts_with (codes "/./") s
    then (dest, drop 2 s)
    else if equal s (codes "/.")
    then (dest ++ take 1 s, drop 2 s)
    else if starts_with (codes "/../") s
    then (up rm dest s, drop 3 s)
    else if equal s (codes "/..")
    then (up_at_end rm dest s, drop 3 s)
    else (dest ++ (first_segment s).0, (first_segment s).1)

unfoldable pub dot_loop : ℕ → Bool → Bytes → Bytes → Option Bytes
unfolding dot_step
dot_loop fuel rm dest [] = some dest
dot_loop zero rm dest (c ∷ s) = none
dot_loop (suc fuel) rm dest (c ∷ s) =
    dot_loop fuel rm (dot_step rm dest (c ∷ s)).0 (dot_step rm dest (c ∷ s)).1

-- What is written to `dest0`. A round takes a character at least, so the size of the input is enough
-- fuel; `none` stands for a loop that did not end.
unfoldable pub remove_dot_segments : Bytes → Bool → Option Bytes
unfolding rule_a rule_d dot_loop
remove_dot_segments s rm = elim (rule_a (length s) rm [] s) [
  | none ↦ none
  | some (dest, rest) ↦ dot_loop (length s) rm (rule_d rm dest rest).0 (rule_d rm dest rest).1
]
