-- ===== src/Chars.antt =====
-- The characters of the grammar: include/boost/url/grammar/{alpha,digit,alnum,hexdig}_chars.hpp,
-- the case conversions of grammar/ci_string.hpp, and the sets of rfc/.
-- A character is its byte, a character set is its test.
use boost_url.Base.{
  ℕ, ◌+◌, ◌-◌, Bool, not, ◌||◌, Option, none, some, within, ◌==◌, if◌then◌else◌, codes, mem_of,
}

abbrev pub CharSet : Type 0
CharSet = ℕ → Bool

infixl 65 ◌∪◌
abbrev pub ◌∪◌ : CharSet → CharSet → CharSet
(p ∪ q) c = p c || q c

unfoldable pub alpha_chars : CharSet
alpha_chars c = within b'A' b'Z' c || within b'a' b'z' c

unfoldable pub digit_chars : CharSet
digit_chars c = within b'0' b'9' c

unfoldable pub alnum_chars : CharSet
alnum_chars c = within b'0' b'9' c || within b'A' b'Z' c || within b'a' b'z' c

unfoldable pub hexdig_chars : CharSet
hexdig_chars c = within b'0' b'9' c || within b'A' b'F' c || within b'a' b'f' c

-- `none` stands for the -1 of the source.
unfoldable pub hexdig_value : ℕ → Option ℕ
hexdig_value c =
    if within b'0' b'9' c
    then some (c - b'0')
    else if within b'a' b'f' c
    then some (c - b'a' + 10)
    else if within b'A' b'F' c
    then some (c - b'A' + 10)
    else none

unfoldable pub to_lower : ℕ → ℕ
to_lower c = if within b'A' b'Z' c then c + b'a' - b'A' else c

unfoldable pub to_upper : ℕ → ℕ
to_upper c = if within b'a' b'z' c then c - (b'a' - b'A') else c

unfoldable pub unreserved_chars : CharSet
unreserved_chars =
    mem_of (codes "ABCDEFGHIJKLMNOPQRSTUVWXYZabcdefghijklmnopqrstuvwxyz0123456789-._~")

unfoldable pub sub_delim_chars : CharSet
sub_delim_chars = mem_of (codes "!$&()*+,;='")

unfoldable pub gen_delim_chars : CharSet
gen_delim_chars = mem_of (codes ":/?#[]@")

unfoldable pub reserved_chars : CharSet
unfolding unreserved_chars
reserved_chars c = not (unreserved_chars c)

unfoldable pub pchars : CharSet
unfolding unreserved_chars sub_delim_chars
pchars = unreserved_chars ∪ sub_delim_chars ∪ ◌==◌ b':' ∪ ◌==◌ b'@'

unfoldable pub user_chars : CharSet
unfolding unreserved_chars sub_delim_chars
user_chars = unreserved_chars ∪ sub_delim_chars

unfoldable pub password_chars : CharSet
unfolding unreserved_chars sub_delim_chars
password_chars = unreserved_chars ∪ sub_delim_chars ∪ ◌==◌ b':'

unfoldable pub userinfo_chars : CharSet
unfolding password_chars
userinfo_chars = password_chars

unfoldable pub host_chars : CharSet
unfolding unreserved_chars sub_delim_chars
host_chars = unreserved_chars ∪ sub_delim_chars

unfoldable pub reg_name_chars : CharSet
unfolding unreserved_chars
reg_name_chars = unreserved_chars ∪ ◌==◌ b'-' ∪ ◌==◌ b'.'

unfoldable pub segment_chars : CharSet
unfolding pchars
segment_chars = pchars

unfoldable pub path_chars : CharSet
unfolding segment_chars
path_chars = segment_chars ∪ ◌==◌ b'/'

unfoldable pub query_chars : CharSet
unfolding pchars
query_chars = pchars ∪ ◌==◌ b'/' ∪ ◌==◌ b'?'

unfoldable pub fragment_chars : CharSet
unfolding pchars
fragment_chars = pchars ∪ ◌==◌ b'/' ∪ ◌==◌ b'?'
