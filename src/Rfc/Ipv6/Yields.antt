-- ===== src/Rfc/Ipv6/Yields.antt =====
-- What `ipv6_address_rule` reads, and the 16 bytes that it makes of it.
use boost_url.Base.{
  ℕ, zero, suc, ◌-◌, ◌*◌, ◌≡◌, refl, sym, ap, ◌∙◌, ◌⊎◌, inl, inr, Bool, true, false, not, ◌&&◌, [],
  ◌∷◌, ◌++◌, append_assoc, arith, ltb, ◌==◌, Bool-cases, ==_iff, Bytes, drop, length-append, Holds,
  Result, err, ok,
}
use boost_url.Base.Slices.{write, write-replace}
use boost_url.Chars.{hexdig_value}
use boost_url.Grammar.{Rule, give}
use boost_url.Grammar.Yields.{Taken}
use boost_url.Ipv4.{to_bytes, ipv4_address_rule}
use boost_url.Ipv4.Yields.{IsDotted, ipv4_address_rule-Yields}
use boost_url.Ipv6.{colon}
use boost_url.Rfc.Ipv6.{
  maybe_octet, fill_zeros, is_none, four, ipv4_tail, at_word, ipv6_loop, start_v6,
  ipv6_address_rule, V6,
}
use boost_url.Rfc.Ipv6.Fill.{zeros, Stored-append, length-Stored, has_gap, finish, zeros_two}
use boost_url.Rfc.Ipv6.Forms.{colon_if, left_with, right_with, IsIpv6, no_groups, ipv4_last}
use boost_url.Rfc.Ipv6.Rounds.{
  Last, IsAddress, fill_zeros-IsAddress, first_word, after_colon-IsAddress, LastWord, Kept,
}
use boost_url.Url.{size}
use boost_url.Url.SchemePart.Laws.{dotted}
use mathlib.Core.Path.{subst}

-- At a '.': the bytes of the last word, and two more, become those of the IPv4 address.
module _ (s0 : Bytes) (n : ℕ) (st : V6) (k : LastWord s0 (suc n) st) where
  tail-IsAddress :
      (v4 : ℕ) (t4 rest : Bytes)
      → st.prev ≡ t4 ++ rest
      → IsDotted t4 v4
      → (n ≡ 0) ⊎ (is_none st.b ≡ false)
      → IsAddress s0 (
        fill_zeros st.b (suc n - 1) (write st.bytes (2 * (7 - suc n)) (four (to_bytes v4))),
        rest,
      )
  tail-IsAddress v4 t4 rest e dotted why =
      let x = four (to_bytes v4) in
      let at = 2 * (7 - suc n) in
      let split : k.x ++ zeros (2 * suc n) ≡ (k.x ++ 0 ∷ 0 ∷ []) ++ zeros (2 * n) =
        ap (◌++◌ k.x) (zeros_two n) ∙ sym (append_assoc k.x (0 ∷ 0 ∷ []) (zeros (2 * n))) in
      let (size, le) = length-Stored st.b (suc (suc n)) k.left k.right k.raw k.stored in
      let written : write st.bytes at x ≡ (k.raw ++ x) ++ zeros (2 * n) =
        ap (λ q. write q at x) (k.buffer ∙ ap (◌++◌ k.raw) split)
        ∙ write-replace at k.raw (k.x ++ 0 ∷ 0 ∷ []) (zeros (2 * n)) x (omega (arith, size, le))
            (omega (arith, length-append k.x (0 ∷ 0 ∷ []), k.two))
        ∙ sym (append_assoc k.raw x (zeros (2 * n))) in
      let index : n ≡ suc n - 1 = omega arith in
      (
        k.t ++ (colon_if k.behind ++ t4),
        k.text
            ∙ ap (◌++◌ (k.t ++ colon_if k.behind)) e
            ∙ sym (append_assoc (k.t ++ colon_if k.behind) t4 rest)
            ∙ ap (λ r. r ++ rest) (append_assoc k.t (colon_if k.behind) t4),
        subst
            (λ m.
              IsIpv6 (k.t ++ (colon_if k.behind ++ t4)) (fill_zeros st.b m (write st.bytes at x)))
            index
            (finish st.b n (k.t ++ (colon_if k.behind ++ t4)) (left_with (has_gap st.b) k.left x)
              (right_with (has_gap st.b) k.right x) (k.raw ++ x) (write st.bytes at x)
              (ipv4_last k.groups dotted)
              (Stored-append st.b n (suc (suc n)) 2 k.left k.right k.raw x k.stored (omega arith)
                refl)
              written why),
      )

Last-word : (c : Bool) (s0 : Bytes) (n : ℕ) (st : V6) → c ≡ true → Last c s0 n st → LastWord s0 n st
Last-word false s0 n st e k = absurd (cc)
Last-word true s0 n st e k = k

ipv4_tail-IsAddress :
    (s0 : Bytes) (n : ℕ) (st : V6) (s : Bytes)
    → Kept s0 (suc n) st s
    → Holds (IsAddress s0) (ipv4_tail (suc n) st)
unfolding ipv4_tail
ipv4_tail-IsAddress s0 n st s k = elim (Bool-cases (is_none st.b && ltb 1 (suc n))) [
  | inl short ↦ rw short tt
  | inr enough ↦ elim (Bool-cases st.c) [
    | inr early ↦ rw (enough, early) tt
    | inl word ↦ elim (Bool-cases (maybe_octet (drop (2 * (7 - suc n)) st.bytes))) [
      | inr no_octet ↦ rw (enough, word, no_octet) tt
      | inl dec ↦
          rw (enough, word, dec)
            (read (why enough) (Last-word st.c s0 (suc n) st word k.last)
              (ipv4_address_rule st.prev) (ipv4_address_rule-Yields st.prev))
    ]
  ]
]
  where
    why : (is_none st.b && ltb 1 (suc n)) ≡ false → (n ≡ 0) ⊎ (is_none st.b ≡ false)
    why enough = elim (Bool-cases (is_none st.b)) [
      | inl none' ↦ inl (ground (arith, none', enough))
      | inr seen ↦ inr seen
    ]

    read :
        (n ≡ 0) ⊎ (is_none st.b ≡ false)
        → LastWord s0 (suc n) st
        → (x : Result (ℕ × Bytes)) → Holds (Taken IsDotted st.prev) x
        → Holds (IsAddress s0) (elim x [
          | err why ↦ err why
          | ok (v4, rest) ↦
              give
                (fill_zeros st.b
                  (suc n - 1)
                  (write st.bytes (2 * (7 - suc n)) (four (to_bytes v4))))
                rest
        ])
    read w l (err _) _ = tt
    read w l (ok (v4, rest)) (t4, e, dotted) = tail-IsAddress s0 n st l v4 t4 rest e dotted w

module _ (s0 : Bytes) (n : ℕ) (more : V6 → Rule Bytes)
    (h : (st : V6) (s : Bytes) → Kept s0 n st s → Holds (IsAddress s0) (more st s)) where
  at_word-IsAddress :
      (st : V6) (x : ℕ) (s : Bytes)
      → Kept s0 (suc n) st s
      → Holds (IsAddress s0) (at_word (suc n) st more x s)
  unfolding at_word
  at_word-IsAddress st x s k = elim (Bool-cases (x == b'.')) [
    | inl dot ↦ rw dot (ipv4_tail-IsAddress s0 n st s k)
    | inr other ↦ elim (Bool-cases (not (is_none st.b) && is_none (hexdig_value x))) [
      | inl end ↦
          rw (other, end) (fill_zeros-IsAddress s0 (suc n) st s k (inr (ground (arith, end))))
      | inr digit ↦ elim (Bool-cases st.c) [
        | inl colon ↦ rw (other, digit, colon) tt
        | inr word ↦ rw (other, digit, word) (first_word s0 n more h st s k word)
      ]
    ]
  ]

ipv6_loop-IsAddress :
    (s0 : Bytes) (n : ℕ) (st : V6) (s : Bytes)
    → Kept s0 n st s
    → Holds (IsAddress s0) (ipv6_loop n st s)
unfolding ipv6_loop
ipv6_loop-IsAddress s0 zero st s k = fill_zeros-IsAddress s0 0 st s k (inl refl)
ipv6_loop-IsAddress s0 (suc n) st [] k = elim (Bool-cases (is_none st.b)) [
  | inl none' ↦ rw none' tt
  | inr seen ↦ rw seen (fill_zeros-IsAddress s0 (suc n) st [] k (inr seen))
]
ipv6_loop-IsAddress s0 (suc n) st (x ∷ s) k = elim (Bool-cases (x == b':')) [
  | inl colon ↦
      rw (colon, ipv6_loop)
        (after_colon-IsAddress s0 n (ipv6_loop n) (ipv6_loop-IsAddress s0 n) st s
          (subst (λ c. Kept s0 (suc n) st (c ∷ s)) ((==_iff x b':').0 colon) k))
  | inr other ↦
      rw (other, ipv6_loop)
        (at_word-IsAddress s0 n (ipv6_loop n) (ipv6_loop-IsAddress s0 n) st x (x ∷ s) k)
]

-- Where `ipv6_address_rule` succeeds, the text that it takes is that of an IPv6 address, and the 16 bytes
-- that it returns are the address: those of the words in front of the "::", zeros for the "::", and those
-- of the words behind it, with the last four from an IPv4 address where the text ends in one.
pub ipv6_address_rule-Yields : (s : Bytes) → Holds (Taken IsIpv6 s) (ipv6_address_rule s)
unfolding ipv6_address_rule
ipv6_address_rule-Yields s = ipv6_loop-IsAddress s 8 (start_v6 s) s (record {
  t = [];
  left = [];
  right = [];
  raw = [];
  groups = no_groups;
  text = refl;
  stored = (refl, refl, refl, omega arith);
  buffer = refl;
  last = tt;
})
