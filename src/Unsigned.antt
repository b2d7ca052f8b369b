-- ===== src/Unsigned.antt =====
-- `unsigned_rule<U>` and `literal_rule`: grammar/impl/unsigned_rule.hpp and literal_rule.ipp.
pub mod Laws
-- Whether `it != end && digit_chars(*it)`.
use boost_url.Base.{
  ℕ, zero, suc, ◌+◌, ◌-◌, ◌*◌, ◌/◌, ◌%◌, Bool, true, false, ◌&&◌, ◌||◌, [], ◌∷◌, ltb, leb, ◌==◌,
  if◌then◌else◌, Bytes, length, take, drop, equal, Result, need_more, mismatch, invalid, err, ok,
}
use boost_url.Chars.{digit_chars}
use boost_url.Grammar.{Rule}
use boost_url.Ipv6.{dig}

unfoldable pub starts_digit : Bytes → Bool
starts_digit [] = false
starts_digit (c ∷ s) = digit_chars c

-- The loop to `safe_end`, with at most `n` digits to go; `max` is the largest number of `U`.
unfoldable pub safe_digits : ℕ → ℕ → ℕ → Bytes → ℕ × Bytes
safe_digits zero max u s = (u, s)
safe_digits (suc n) max u [] = (u, [])
safe_digits (suc n) max u (c ∷ s) = elim (digit_chars c) [
  | true ↦ safe_digits n max ((u * 10 + (c - b'0')) % suc max) s
  | false ↦ (u, c ∷ s)
]

-- Behind the loop: one more digit, if it is there and does not overflow.
unfoldable pub last_digit : ℕ → ℕ → Bytes → Result (ℕ × Bytes)
unfolding starts_digit
last_digit max u [] = ok (u, [])
last_digit max u (c ∷ s) =
    let dig = c - b'0' in
    if digit_chars c
    then if ltb (max / 10) u || (u == max / 10 && ltb (max % 10) dig)
      then err invalid
      else if starts_digit s
      then err invalid
      else ok ((u * 10 + dig) % suc max, s)
    else ok (u, c ∷ s)

unfoldable pub unsigned_rule : ℕ → ℕ → Rule ℕ
unfolding starts_digit safe_digits last_digit
unsigned_rule digits10 max [] = err mismatch
unsigned_rule digits10 max (c ∷ s) =
    if c == b'0'
    then if starts_digit s then err invalid else ok (0, s)
    else if digit_chars c
    then last_digit max (safe_digits (digits10 - 1) max (c - b'0') s).0
        (safe_digits (digits10 - 1) max (c - b'0') s).1
    else err mismatch

-- A literal is not empty.
unfoldable pub literal_rule : Bytes → Rule Bytes
literal_rule lit s =
    if leb (length lit) (length s)
    then if equal (take (length lit) s) lit then ok (lit, drop (length lit) s) else err mismatch
    else if ltb 0 (length s)
    then if equal s (take (length s) lit) then err need_more else err mismatch
    else err need_more
