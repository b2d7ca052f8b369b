-- ===== src/Grammar.antt =====
-- Rules: `parse(it, end, rule)` returns a value and leaves the input behind it.
-- grammar/impl/parse.hpp and the rules that are used by name.
pub mod Yields
use boost_url.Base.{
  ℕ, ◌+◌, ◌-◌, ◌*◌, true, false, not, Option, none, some, [], ◌∷◌, ltb, ◌==◌, if◌then◌else◌, Bytes,
  length, take, is_empty, Result, need_more, mismatch, leftover, invalid, err, ok,
}
use boost_url.Chars.{CharSet, digit_chars}

abbrev pub Rule {ℓ} : Type ℓ → Type ℓ
Rule T = Bytes → Result (T × Bytes)

-- `delim_rule(ch)`, squelched.
unfoldable pub delim_rule : ℕ → Rule (Unit {0})
delim_rule ch [] = err need_more
delim_rule ch (c ∷ s) = if c == ch then ok (tt, s) else err mismatch

-- `parse(s, rule)`: nothing may be left over.
unfoldable pub parse_all {ℓ} : {T : Type ℓ} → Rule T → Bytes → Result T
parse_all rule s = elim (rule s) [
  | err why ↦ err why
  | ok (value, rest) ↦ if is_empty rest then ok value else err leftover
]

infixl 5 ◌>>=◌ ◌>>◌
-- `auto rv = parse(it, end, r); if(! rv) return rv.error();` and what follows, on the input behind.
abbrev pub ◌>>=◌ {ℓ κ} : {S : Type ℓ} {T : Type κ} → Rule S → (S → Rule T) → Rule T
◌>>=◌ r next s = elim (r s) [ err why ↦ err why | ok (value, rest) ↦ next value rest ]

abbrev pub ◌>>◌ {ℓ κ} : {S : Type ℓ} {T : Type κ} → Rule S → Rule T → Rule T
r >> next = r >>= λ _. next

abbrev pub give {ℓ} : {T : Type ℓ} → T → Rule T
give value s = ok (value, s)

-- `string_view(it0, it - it0)`, for what is left at `it0` and at `it`.
unfoldable pub consumed : Bytes → Bytes → Bytes
consumed s rest = take (length s - length rest) s

-- `find_if_not`: the characters in front of the position that it returns, and those from there.
unfoldable pub find_if_not : CharSet → Bytes → Bytes × Bytes
find_if_not cs [] = ([], [])
find_if_not cs (c ∷ s) = elim (cs c) [
  | true ↦ (c ∷ (find_if_not cs s).0, (find_if_not cs s).1)
  | false ↦ ([], c ∷ s)
]

-- `token_rule(cs)`
unfoldable pub token_rule : CharSet → Rule Bytes
unfolding find_if_not
token_rule cs [] = err need_more
token_rule cs (c ∷ s) =
    let (token, rest) = find_if_not cs (c ∷ s) in
    if is_empty token then err mismatch else ok (token, rest)

-- `optional_rule(r)`
unfoldable pub optional_rule {ℓ} : {T : Type ℓ} → Rule T → Rule (Option T)
optional_rule r [] = ok (none, [])
optional_rule r (c ∷ s) = elim (r (c ∷ s)) [
  | err _ ↦ ok (none, c ∷ s)
  | ok (value, rest) ↦ ok (some value, rest)
]

-- `not_empty_rule(r)`: `it == it0` when nothing was taken.
unfoldable pub not_empty_rule {ℓ} : {T : Type ℓ} → Rule T → Rule T
not_empty_rule r [] = err mismatch
not_empty_rule r (c ∷ s) = elim (r (c ∷ s)) [
  | err why ↦ err why
  | ok (value, rest) ↦ if length rest == length (c ∷ s) then err mismatch else ok (value, rest)
]

-- The digits of a decimal octet, after the first, the second and the third.
unfoldable pub octet_end : ℕ → Rule ℕ
octet_end v [] = ok (v, [])
octet_end v (d ∷ s) = if digit_chars d then err invalid else ok (v, d ∷ s)

unfoldable pub octet_third : ℕ → Rule ℕ
octet_third v [] = ok (v, [])
octet_third v (d ∷ s) =
    let w = 10 * v + d - b'0' in
    if not (digit_chars d)
    then ok (v, d ∷ s)
    else if ltb 25 v
    then err invalid
    else if ltb 255 w
    then err invalid
    else octet_end w s

unfoldable pub octet_second : ℕ → Rule ℕ
octet_second v [] = ok (v, [])
octet_second v (d ∷ s) =
    if not (digit_chars d)
    then ok (v, d ∷ s)
    else if v == 0
    then err invalid
    else octet_third (10 * v + d - b'0') s

-- `dec_octet_rule`
unfoldable pub dec_octet_rule : Rule ℕ
dec_octet_rule [] = err mismatch
dec_octet_rule (d ∷ s) = if not (digit_chars d) then err mismatch else octet_second (d - b'0') s
