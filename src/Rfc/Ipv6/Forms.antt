-- ===== src/Rfc/Ipv6/Forms.antt =====
-- The texts of IPv6 addresses and their bytes, as RFC 3986 has them, 3.2.2.
use boost_url.Base.{
  ℕ, suc, ◌+◌, ◌*◌, ◌/◌, ◌%◌, ◌≤◌, ◌≡◌, ◌⊎◌, Bool, true, false, some, [], ◌∷◌, ◌++◌, if◌then◌else◌,
  Bytes, codes, length, replicate,
}
use boost_url.Chars.{hexdig_value}
use boost_url.Ipv4.{to_bytes}
use boost_url.Ipv4.Yields.{IsDotted}
use boost_url.Rfc.Ipv6.{four}

-- The hexadecimal number of a text, behind the number `u`.
pub data Hex : ℕ → Bytes → ℕ → Type 0 where
  no_digit : {u : ℕ} → Hex u [] u
  next_digit :
      {u c d v : ℕ} {s : Bytes} → hexdig_value c ≡ some d → Hex (16 * u + d) s v → Hex u (c ∷ s) v

-- h16: one to four digits; `x` is the two bytes of the number.
abbrev pub IsWord : Bytes → Bytes → Type 0
IsWord w x = (v : ℕ) × Hex 0 w v × (1 ≤ length w) × (length w ≤ 4) × (x ≡ v / 256 ∷ v % 256 ∷ [])

-- What stands between a word and the text in front of it.
abbrev pub colon_if : Bool → Bytes
colon_if behind = if behind then codes ":" else []

-- The bytes `x` stand behind those of the side of the "::" that is being read.
abbrev pub left_with : Bool → Bytes → Bytes → Bytes
left_with gap left x = if gap then left else left ++ x

abbrev pub right_with : Bool → Bytes → Bytes → Bytes
right_with gap right x = if gap then right ++ x else right

-- `Groups n gap behind t left right`: `t` is words with a ':' between them, and one "::" or none (`gap`);
-- `left` and `right` are the bytes of the words in front of the "::" and of those behind it, `behind`
-- is whether a word stands at the end, and `n` is 8 less the words and less one for the "::".
pub data Groups : ℕ → Bool → Bool → Bytes → Bytes → Bytes → Type 0 where
  no_groups : Groups 8 false false [] [] []
  double_colon :
      {n : ℕ} {behind : Bool} {t left right : Bytes}
      → Groups (suc n) false behind t left right
      → Groups n true false (t ++ codes "::") left right
  one_word :
      {n : ℕ} {gap behind : Bool} {t left right w x : Bytes}
      → Groups (suc n) gap behind t left right
      → IsWord w x
      → Groups n gap true
          (t ++ (colon_if behind ++ w))
          (left_with gap left x)
          (right_with gap right x)

-- The last two words may be an IPv4 address.
pub data Parts : ℕ → Bool → Bytes → Bytes → Bytes → Type 0 where
  all_words :
      {n : ℕ} {gap behind : Bool} {t left right : Bytes}
      → Groups n gap behind t left right
      → Parts n gap t left right
  ipv4_last :
      {n : ℕ} {gap behind : Bool} {t left right w : Bytes} {address : ℕ}
      → Groups (suc (suc n)) gap behind t left right
      → IsDotted w address
      → Parts n gap
          (t ++ (colon_if behind ++ w))
          (left_with gap left (four (to_bytes address)))
          (right_with gap right (four (to_bytes address)))

-- The bytes are those of eight words; or a "::" stands for one word of zeros or more, so many that
-- there are 16 bytes.
abbrev pub IsIpv6 : Bytes → Bytes → Type 0
IsIpv6 t v =
    (length v ≡ 16)
    × (((right : Bytes) × Parts 0 false t v right)
        ⊎ ((n : ℕ) × (left : Bytes) × (right : Bytes) × Parts n true t left right
            × (v ≡ left ++ (replicate (2 * n + 2) 0 ++ right))))
