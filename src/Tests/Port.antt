-- ===== src/Tests/Port.antt =====
-- Instances of the theorems on ports, and test runs.
-- The number wraps around unnoticed.
use boost_url.Base.{ℕ, ◌^◌, ◌≤◌, ◌<◌, ◌≡◌, refl, ◌⊎◌, true, Option, some, [], ◌∷◌, Bytes, codes, ok}
use boost_url.Chars.{digit_chars}
use boost_url.Port.{port_end, port_overflow, port_loop, port_rule, port_part_rule}
use boost_url.Port.Laws.{IsWrapped, port_rule-IsDigits}

port_rule_wraps :
    port_rule (codes "99999") ≡ ok (record { str = codes "99999"; number = some 34463 }, [])
unfolding port_rule port_loop port_end port_overflow digit_chars
port_rule_wraps = refl

abbrev wrapping : Bytes
wrapping = b'9' ∷ b'9' ∷ b'9' ∷ b'9' ∷ b'9' ∷ []

port_part_sample :
    port_part_rule (codes ":80/")
    ≡ ok (record { has_port = true; port = codes "80"; port_number = some 80 }, codes "/")
unfolding port_part_rule port_rule port_loop port_end port_overflow digit_chars
port_part_sample = refl

-- A number that wraps around.
port_rule-IsDigits_example :
    (found : Option ℕ) × (port_rule wrapping ≡ ok (record { str = wrapping; number = found }, []))
    × (((99999 < 2 ^ 16) × (found ≡ some 99999)) ⊎ ((2 ^ 16 ≤ 99999) × IsWrapped 99999 found))
port_rule-IsDigits_example =
    port_rule-IsDigits wrapping (λ e. cc)
      (unfold digit_chars in (refl, (refl, (refl, (refl, (refl, tt))))))
