-- ===== src/Tests/Unsigned.antt =====
-- The theorem on `unsigned_rule` for a 16-bit number, and runs.
use boost_url.Base.{◌≡◌, refl, arith, codes, Holds, need_more, mismatch, invalid, err, ok}
use boost_url.Chars.{digit_chars}
use boost_url.Unsigned.{unsigned_rule, literal_rule}
use boost_url.Unsigned.Laws.{IsNumber, unsigned_rule-IsNumber}

unsigned_rule_run :
    (unsigned_rule 4 65535 (codes "65535x") ≡ ok (65535, codes "x"))
    × (unsigned_rule 4 65535 (codes "65536") ≡ err invalid)
    × (unsigned_rule 4 65535 (codes "123456") ≡ err invalid)
    × (unsigned_rule 4 65535 (codes "01") ≡ err invalid)
    × (unsigned_rule 4 65535 (codes "0.") ≡ ok (0, codes "."))
unfolding unsigned_rule digit_chars
unsigned_rule_run = (refl, refl, refl, refl, refl)

literal_rule_run :
    (literal_rule (codes "HTTP") (codes "HTTP/1") ≡ ok (codes "HTTP", codes "/1"))
    × (literal_rule (codes "HTTP") (codes "HT") ≡ err need_more)
    × (literal_rule (codes "HTTP") (codes "HX") ≡ err mismatch)
unfolding literal_rule
literal_rule_run = (refl, refl, refl)

unsigned_rule-IsNumber_example :
    Holds (IsNumber 65535 0 (codes "65535x")) (unsigned_rule 4 65535 (codes "65535x"))
unsigned_rule-IsNumber_example = unsigned_rule-IsNumber 4 65535 (codes "65535x") (omega arith)
