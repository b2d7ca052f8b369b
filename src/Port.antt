-- ===== src/Port.antt =====
-- Ports: rfc/detail/port_rule.hpp and rfc/detail/impl/port_rule.ipp.
pub mod Laws
pub mod RoundTrip
pub mod Yields
use boost_url.Base.{
  ℕ, ◌+◌, ◌-◌, ◌*◌, ◌%◌, ◌^◌, Bool, true, false, not, Option, none, some, [], ◌∷◌, ◌++◌, ltb, ◌==◌,
  if◌then◌else◌, Bytes, ◌>>=◌, ok,
}
use boost_url.Chars.{digit_chars}
use boost_url.Grammar.{Rule}

-- `port_rule::value_type`, `none` standing for `has_number == false`.
pub record PortValue : Type 0 where
  pub str : Bytes
  pub number : Option ℕ

-- Behind the loop: a number if there was a digit.
unfoldable pub port_end : Bytes → ℕ → Option ℕ
port_end [] u = none
port_end (_ ∷ _) u = some u

-- After an overflow `find_if_not` takes the digits that are left.
unfoldable pub port_overflow : Bytes → Bytes → PortValue × Bytes
port_overflow digits [] = (record { str = digits; number = none }, [])
port_overflow digits (c ∷ s) =
    let more = port_overflow (digits ++ c ∷ []) s in
    if digit_chars c then more else (record { str = digits; number = none }, c ∷ s)

-- The loop, with the digits read so far and the 16-bit number of them. The overflow is looked for
-- by comparing the new number with the old.
unfoldable pub port_loop : Bytes → ℕ → Bytes → PortValue × Bytes
unfolding port_overflow port_end
port_loop digits u [] = (record { str = digits; number = port_end digits u }, [])
port_loop digits u (c ∷ s) =
    let u1 = (10 * u + c - b'0') % 2 ^ 16 in
    let more = port_loop (digits ++ c ∷ []) u1 s in
    if not (digit_chars c)
    then (record { str = digits; number = port_end digits u }, c ∷ s)
    else if ltb u1 u
    then port_overflow digits (c ∷ s)
    else more

unfoldable pub port_rule : Rule PortValue
unfolding port_loop
port_rule s = ok (port_loop [] 0 s)

-- `port_part_rule`
pub record PortPart : Type 0 where
  pub has_port : Bool
  pub port : Bytes
  pub port_number : Option ℕ

unfoldable pub port_part_rule : Rule PortPart
unfolding port_rule
port_part_rule [] = ok (record { has_port = false; port = []; port_number = none }, [])
port_part_rule (c ∷ s) =
    let part = do
      (v, rest) ← port_rule s
      ok (record { has_port = true; port = v.str; port_number = v.number }, rest)
    in if c == b':'
      then part
      else ok (record { has_port = false; port = []; port_number = none }, c ∷ s)
