-- ===== src/Ipv6.antt =====
-- IPv6 addresses and their text: ipv6_address.hpp and impl/ipv6_address.ipp. An address is its 16
-- bytes.
pub mod Bounds
pub mod Words
use boost_url.Base.{
  ℕ, zero, suc, ◌+◌, ◌-◌, ◌*◌, ◌/◌, ◌%◌, ◌^◌, Bool, true, false, ◌&&◌, Option, none, some, [], ◌∷◌,
  ◌++◌, ltb, leb, ◌==◌, if◌then◌else◌, Bytes, length, take, drop, replicate, is_empty, equal,
  Result, length_error, invalid_argument, err, ok,
}
use boost_url.Grammar.{parse_all}
use boost_url.Ipv4.{from_bytes, to_bytes, print_impl}
use boost_url.Rfc.Ipv6.{ipv6_address_rule}
use mathlib.Core.Option

unfoldable pub parse_ipv6_address : Bytes → Result Bytes
unfolding parse_all ipv6_address_rule
parse_ipv6_address = parse_all ipv6_address_rule

-- `ipv6_address(ipv4_address const&)`
unfoldable pub of_ipv4 : ℕ → Bytes
unfolding to_bytes
of_ipv4 addr =
    let v = to_bytes addr in replicate 10 0 ++ 0xff ∷ 0xff ∷ v.b0 ∷ v.b1 ∷ v.b2 ∷ v.b3 ∷ []

-- `ipv6_address(string_view)`
unfoldable pub construct_ipv6 : Bytes → Result Bytes
unfolding parse_ipv6_address
construct_ipv6 s = elim (parse_ipv6_address s) [ err _ ↦ err invalid_argument | ok a ↦ ok a ]

unfoldable pub loopback : Bytes
loopback = replicate 15 0 ++ 1 ∷ []

unfoldable pub is_loopback_ipv6 : Bytes → Bool
unfolding loopback
is_loopback_ipv6 a = equal a loopback

unfoldable pub is_unspecified_ipv6 : Bytes → Bool
is_unspecified_ipv6 a = equal a (replicate 16 0)

unfoldable pub is_v4_mapped : Bytes → Bool
is_v4_mapped a = equal (take 12 a) (replicate 10 0 ++ 0xff ∷ 0xff ∷ [])

-- The bytes in front that are zeroes, by pairs.
unfoldable pub count_zeroes : Bytes → ℕ
count_zeroes (c0 ∷ c1 ∷ s) = if c0 == 0 && c1 == 0 then 2 + count_zeroes s else 0
count_zeroes _ = 0

-- `dig[v]`
unfoldable pub dig : ℕ → ℕ
dig v = if ltb v 10 then b'0' + v else b'a' + (v - 10)

unfoldable pub print_hex : ℕ → Bytes
unfolding dig
print_hex v =
    if leb 0x1000 v
    then dig (v / 2 ^ 12)
      ∷ dig (v % 2 ^ 12 / 2 ^ 8)
      ∷ dig (v % 2 ^ 8 / 2 ^ 4)
      ∷ dig (v % 2 ^ 4)
      ∷ []
    else if leb 0x100 v
    then dig (v / 2 ^ 8) ∷ dig (v % 2 ^ 8 / 2 ^ 4) ∷ dig (v % 2 ^ 4) ∷ []
    else if leb 0x10 v
    then dig (v / 2 ^ 4) ∷ dig (v % 2 ^ 4) ∷ []
    else dig v ∷ []

-- `best_pos` and `best_len`.
pub record Run : Type 0 where
  pub best_pos : Option ℕ
  pub best_len : ℕ

-- The longest run of zeroes from the position `place` on, or `best`; `none` stands for a loop that did
-- not end.
unfoldable pub longest_run : ℕ → Run → ℕ → Bytes → Option Run
unfolding count_zeroes
longest_run fuel best place [] = some best
longest_run zero best place (c ∷ s) = none
longest_run (suc fuel) best place (c ∷ s) =
    let n = count_zeroes (c ∷ s) in
    elim (n == 0) [
      | true ↦ longest_run fuel best (place + 2) (drop 2 (c ∷ s))
      | false ↦
          longest_run fuel
            (if ltb best.best_len n then record { best_pos = some place; best_len = n } else best)
            (place + n) (drop n (c ∷ s))
    ]

unfoldable pub starts_at : Run → ℕ → Bool
starts_at run place = elim run.best_pos [ none ↦ false | some p ↦ place == p ]

-- `*dest++ = ':'; it += best_len; if(it == end) *dest++ = ':';`, with what follows.
abbrev pub colon : Bytes → Bytes → Bytes
colon rest text = if is_empty rest then b':' ∷ b':' ∷ text else b':' ∷ text

-- A word; an address has no single byte at its end.
unfoldable pub print_word : Bytes → Bytes
unfolding print_hex
print_word (c0 ∷ c1 ∷ _) = print_hex (c0 * 256 + c1)
print_word _ = []

-- The loop that prints; the fuel as in `longest_run`.
unfoldable pub print_loop : ℕ → Run → ℕ → Bytes → Option Bytes
unfolding starts_at print_word
print_loop fuel run place [] = some []
print_loop zero run place (c ∷ s) = none
print_loop (suc fuel) run place (c ∷ s) = elim (starts_at run place) [
  | true ↦
      let rest = drop run.best_len (c ∷ s) in
      Option.map (colon rest) (print_loop fuel run (place + run.best_len) rest)
  | false ↦
      Option.map (λ text. b':' ∷ (print_word (c ∷ s) ++ text))
        (print_loop fuel run (place + 2) (drop 2 (c ∷ s)))
]

-- The words of `s`, which starts at position 0: the part before the loop, and the loop.
unfoldable pub print_words : ℕ → Run → Bytes → Option Bytes
unfolding starts_at print_word print_loop
print_words fuel run s = elim (starts_at run 0) [
  | true ↦
      let rest = drop run.best_len s in
      Option.map (colon rest) (print_loop fuel run run.best_len rest)
  | false ↦ Option.map (λ text. print_word s ++ text) (print_loop fuel run 2 (drop 2 s))
]

-- The last four bytes, as an IPv4 address.
unfoldable pub print_v4 : Bytes → Bytes
unfolding print_impl from_bytes
print_v4 (c0 ∷ c1 ∷ c2 ∷ c3 ∷ _) =
    b':' ∷ print_impl (from_bytes (record { b0 = c0; b1 = c1; b2 = c2; b3 = c3 }))
print_v4 _ = []

-- The words in front of an IPv4 address, or all of them.
unfoldable pub print_all : ℕ → Bytes → Option Bytes
unfolding longest_run print_words
print_all fuel words = elim (longest_run fuel (record { best_pos = none; best_len = 0 }) 0 words) [
  | none ↦ none
  | some run ↦ print_words fuel run words
]

-- `print_impl`
unfoldable pub print_ipv6 : Bytes → Option Bytes
unfolding is_v4_mapped print_all print_v4
print_ipv6 a =
    if is_v4_mapped a
    then Option.map (λ text. text ++ print_v4 (drop 12 a)) (print_all (length a) (take 12 a))
    else print_all (length a) a

-- `to_buffer`: `max_str_len` is 49.
unfoldable pub ipv6_to_buffer : ℕ → Bytes → Result (Option Bytes)
unfolding print_ipv6
ipv6_to_buffer dest_size a = if ltb dest_size 49 then err length_error else ok (print_ipv6 a)
