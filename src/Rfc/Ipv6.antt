-- ===== src/Rfc/Ipv6.antt =====
-- IPv6 addresses as the grammar reads them: rfc/detail/impl/h16_rule.ipp and
-- rfc/impl/ipv6_address_rule.ipp. An address is its 16 bytes.
pub mod Forms
pub mod Fill
pub mod Words
pub mod Rounds
pub mod Yields
use boost_url.Base.{
  ℕ, zero, suc, ◌+◌, ◌-◌, ◌*◌, ◌/◌, ◌%◌, ◌^◌, Bool, true, false, not, ◌&&◌, Option, none, some, [],
  ◌∷◌, ltb, ◌==◌, if◌then◌else◌, Bytes, drop, replicate, Result, invalid, unwritten, err, ok,
}
use boost_url.Base.Slices.{slice, write}
use boost_url.Chars.{hexdig_value}
use boost_url.Grammar.{Rule, ◌>>=◌, give}
use boost_url.Ipv4.{to_bytes, ipv4_address_rule, Octets}

-- The digits after the first, `n` of them at most.
unfoldable pub h16_digits : ℕ → ℕ → Bytes → ℕ × Bytes
h16_digits zero v s = (v, s)
h16_digits (suc n) v [] = (v, [])
h16_digits (suc n) v (c ∷ s) = elim (hexdig_value c) [
  | none ↦ (v, c ∷ s)
  | some d ↦ h16_digits n ((16 * v + d) % 2 ^ 16) s
]

-- The high and the low byte of a word.
unfoldable pub h16_rule : Rule (ℕ × ℕ)
unfolding h16_digits
h16_rule [] = err invalid
h16_rule (c ∷ s) = elim (hexdig_value c) [
  | none ↦ err invalid
  | some d ↦ let (v, rest) = h16_digits 3 d s in ok ((v / 256, v % 256), rest)
]

-- Whether the word, read as decimal, could be 0..255.
unfoldable pub maybe_octet : Bytes → Bool
maybe_octet (p0 ∷ p1 ∷ _) =
    let word = p0 * 256 + p1 in
    if ltb 0x255 word
    then false
    else if ltb 9 (word / 16 % 16)
    then false
    else if ltb 9 (word % 16)
    then false
    else true
maybe_octet _ = false

-- Behind the loop, with `n` words still needed: the words behind a "::" move to the end, and the words
-- that it stands for are set to zero. `b` is the value of `n` when it was seen.
unfoldable pub fill_zeros : Option ℕ → ℕ → Bytes → Bytes
fill_zeros none n bytes = bytes
fill_zeros (some b) n bytes =
    let last = 2 * (7 - n) in
    let i = 2 * (b - n) in
    let i0 = 2 * (7 - b) in
    if b == n
    then write bytes last (replicate (16 - last) 0)
    else if b == 7
    then write (write bytes (16 - i) (slice 2 i bytes)) 0 (replicate (16 - i) 0)
    else write (write bytes (16 - i) (slice (i0 + 2) i bytes)) i0 (replicate (16 - (i0 + i)) 0)

-- The loop's state but `n`.
pub record V6 : Type 0 where
  pub b : Option ℕ
  -- need colon
  pub c : Bool
  pub prev : Bytes
  pub bytes : Bytes

abbrev pub is_none {ℓ} : {A : Type ℓ} → Option A → Bool
is_none none = true
is_none (some _) = false

abbrev pub four : Octets → Bytes
four v = v.b0 ∷ v.b1 ∷ v.b2 ∷ v.b3 ∷ []

-- At a '.': the last word was the start of an IPv4 address. Directly behind a "::" no word was stored
-- at the place that the source reads, and the code of its failure depends on what stands there.
unfoldable pub ipv4_tail : ℕ → V6 → Result (Bytes × Bytes)
unfolding maybe_octet ipv4_address_rule to_bytes fill_zeros
ipv4_tail n st =
    let at = 2 * (7 - n) in
    let address : Rule Bytes = do
      v4 ← ipv4_address_rule
      give (fill_zeros st.b (n - 1) (write st.bytes at (four (to_bytes v4))))
    in if is_none st.b && ltb 1 n
      then err invalid
      else if not st.c
      then err unwritten
      else if not (maybe_octet (drop at st.bytes))
      then err invalid
      else address st.prev

-- A word at `s`, the `n`th from the end, and what follows.
unfoldable pub read_word : ℕ → V6 → (V6 → Rule Bytes) → Rule Bytes
unfolding h16_rule
read_word n st more s = elim (h16_rule s) [
  | err why ↦ err why
  | ok ((hi, lo), rest) ↦
      more
        (record {
          b = st.b;
          c = true;
          prev = s;
          bytes = write st.bytes (2 * (8 - n)) (hi ∷ lo ∷ []);
        })
        rest
]

-- Behind a ':'.
unfoldable pub after_colon : ℕ → V6 → (V6 → Rule Bytes) → Rule Bytes
unfolding read_word
after_colon n st more [] = err invalid
after_colon n st more (y ∷ s) = elim (y == b':') [
  | true ↦ elim st.b [
    | none ↦ more (record st { b = some (n - 1); c = false }) s
    | some _ ↦ err invalid
  ]
  | false ↦ elim st.c [ true ↦ read_word n st more (y ∷ s) | false ↦ err invalid ]
]

-- Not at a ':'.
unfoldable pub at_word : ℕ → V6 → (V6 → Rule Bytes) → ℕ → Rule Bytes
unfolding ipv4_tail read_word fill_zeros
at_word n st more x s =
    if x == b'.'
    then ipv4_tail n st
    else if not (is_none st.b) && is_none (hexdig_value x)
    then ok (fill_zeros st.b n st.bytes, s)
    else if not st.c
    then read_word n st more s
    else err invalid

-- The loop, with `n` words needed. Every round needs one word less.
unfoldable pub ipv6_loop : ℕ → V6 → Rule Bytes
unfolding fill_zeros after_colon at_word
ipv6_loop zero st s = ok (fill_zeros st.b 0 st.bytes, s)
ipv6_loop (suc n) st [] =
    if is_none st.b then err invalid else ok (fill_zeros st.b (suc n) st.bytes, [])
ipv6_loop (suc n) st (x ∷ s) = elim (x == b':') [
  | true ↦ after_colon (suc n) st (ipv6_loop n) s
  | false ↦ at_word (suc n) st (ipv6_loop n) x (x ∷ s)
]

-- The bytes are not initialised in the source; `ipv4_tail` has the one read of such bytes.
abbrev pub start_v6 : Bytes → V6
start_v6 it = record { b = none; c = false; prev = it; bytes = replicate 16 0 }

unfoldable pub ipv6_address_rule : Rule Bytes
unfolding ipv6_loop
ipv6_address_rule s = ipv6_loop 8 (start_v6 s) s
