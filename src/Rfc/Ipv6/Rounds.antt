-- ===== src/Rfc/Ipv6/Rounds.antt =====
-- What the rounds of `ipv6_address_rule` keep, up to an IPv4 address.
use boost_url.Base.{
  ℕ, suc, ◌-◌, ◌*◌, ◌≡◌, refl, sym, ap, ◌∙◌, ◌⊎◌, inl, inr, Bool, true, false, none, some, [], ◌∷◌,
  ◌++◌, append_assoc, append-nil, arith, ◌==◌, Bool-cases, ==_iff, Bytes, codes, length,
  Option-cases, Holds, Result, err, ok,
}
use boost_url.Base.Slices.{write, write-replace}
use boost_url.Grammar.{Rule}
use boost_url.Grammar.Yields.{Taken}
use boost_url.Ipv6.{colon}
use boost_url.Rfc.Ipv6.{h16_rule, fill_zeros, is_none, read_word, after_colon, V6}
use boost_url.Rfc.Ipv6.Fill.{
  zeros, Stored, Stored-append, length-Stored, has_gap, finish, zeros_two,
}
use boost_url.Rfc.Ipv6.Forms.{
  IsWord, colon_if, left_with, right_with, IsIpv6, Groups, double_colon, one_word, all_words,
}
use boost_url.Rfc.Ipv6.Words.{h16_rule-IsWord}
use mathlib.Core.Path.{ap₂, subst}

-- The word that was read last, if one was read in the last round: the text in front of it, and the
-- bytes that were stored then.
pub record LastWord (s0 : Bytes) (n : ℕ) (st : V6) : Type 0 where
  pub behind : Bool
  pub t : Bytes
  pub left : Bytes
  pub right : Bytes
  pub raw : Bytes
  pub x : Bytes
  pub groups : Groups (suc n) (has_gap st.b) behind t left right
  pub text : s0 ≡ (t ++ colon_if behind) ++ st.prev
  pub stored : Stored st.b (suc n) left right raw
  pub two : length x ≡ 2
  pub buffer : st.bytes ≡ raw ++ (x ++ zeros (2 * n))

abbrev pub Last : Bool → Bytes → ℕ → V6 → Type 0
Last false s0 n st = Unit
Last true s0 n st = LastWord s0 n st

-- What the rounds keep, for the input `s0`, `n` words needed and the rest `s`.
pub record Kept (s0 : Bytes) (n : ℕ) (st : V6) (s : Bytes) : Type 0 where
  pub t : Bytes
  pub left : Bytes
  pub right : Bytes
  pub raw : Bytes
  pub groups : Groups n (has_gap st.b) st.c t left right
  pub text : s0 ≡ t ++ s
  pub stored : Stored st.b n left right raw
  pub buffer : st.bytes ≡ raw ++ zeros (2 * n)
  pub last : Last st.c s0 n st

abbrev pub IsAddress : Bytes → Bytes × Bytes → Type 0
IsAddress s0 = Taken IsIpv6 s0

-- The address is at its end.
pub fill_zeros-IsAddress :
    (s0 : Bytes) (n : ℕ) (st : V6) (s : Bytes)
    → Kept s0 n st s
    → (n ≡ 0) ⊎ (is_none st.b ≡ false)
    → IsAddress s0 (fill_zeros st.b n st.bytes, s)
fill_zeros-IsAddress s0 n st s k why = (
  k.t,
  k.text,
  finish st.b n k.t k.left k.right k.raw st.bytes (all_words k.groups) k.stored k.buffer why,
)

module _ (s0 : Bytes) (n : ℕ) (more : V6 → Rule Bytes)
    (h : (st : V6) (s : Bytes) → Kept s0 n st s → Holds (IsAddress s0) (more st s)) where
  read_word-IsAddress :
      (st : V6) (s : Bytes) (behind : Bool) (t left right raw : Bytes)
      → Groups (suc n) (has_gap st.b) behind t left right
      → s0 ≡ (t ++ colon_if behind) ++ s
      → Stored st.b (suc n) left right raw
      → st.bytes ≡ raw ++ zeros (2 * suc n)
      → Holds (IsAddress s0) (read_word (suc n) st more s)
  unfolding read_word
  read_word-IsAddress st s behind t left right raw groups text stored buffer =
      read (h16_rule s) (h16_rule-IsWord s)
    where
      read :
          (x : Result ((ℕ × ℕ) × Bytes))
          → Holds
              (λ (p : (ℕ × ℕ) × Bytes).
                (w : Bytes) × (s ≡ w ++ p.1) × IsWord w (p.0.0 ∷ p.0.1 ∷ []))
              x
          → Holds (IsAddress s0) (elim x [
            | err why ↦ err why
            | ok ((hi, lo), rest) ↦
                more
                  (record {
                    b = st.b;
                    c = true;
                    prev = s;
                    bytes = write st.bytes (2 * (8 - suc n)) (hi ∷ lo ∷ []);
                  })
                  rest
          ])
      read (err why) _ = tt
      read (ok ((hi, lo), rest)) (w, e, is_word) =
          let x = hi ∷ lo ∷ [] in
          let at = 2 * (8 - suc n) in
          let written : write st.bytes at x ≡ raw ++ (x ++ zeros (2 * n)) =
            ap (λ q. write q at x) (buffer ∙ ap (◌++◌ raw) (zeros_two n))
            ∙ write-replace at raw (0 ∷ 0 ∷ []) (zeros (2 * n)) x
                (sym (length-Stored st.b (suc n) left right raw stored).0) refl in
          h _ rest (record {
            t = t ++ (colon_if behind ++ w);
            left = left_with (has_gap st.b) left x;
            right = right_with (has_gap st.b) right x;
            raw = raw ++ x;
            groups = one_word groups is_word;
            text =
                text
                ∙ ap (◌++◌ (t ++ colon_if behind)) e
                ∙ sym (append_assoc (t ++ colon_if behind) w rest)
                ∙ ap (λ r. r ++ rest) (append_assoc t (colon_if behind) w);
            stored = Stored-append st.b n (suc n) 1 left right raw x stored (omega arith) refl;
            buffer = written ∙ sym (append_assoc raw x (zeros (2 * n)));
            last = record {
              behind = behind;
              t = t;
              left = left;
              right = right;
              raw = raw;
              x = x;
              groups = groups;
              text = text;
              stored = stored;
              two = refl;
              buffer = written;
            };
          })

  -- Behind the word and the ':' at the end of the text.
  next_word :
      (st : V6) (s : Bytes)
      → Kept s0 (suc n) st (b':' ∷ s)
      → st.c ≡ true
      → Holds (IsAddress s0) (read_word (suc n) st more s)
  next_word st s k word =
      read_word-IsAddress st s true k.t k.left k.right k.raw
        (subst (λ c. Groups (suc n) (has_gap st.b) c k.t k.left k.right) word k.groups)
        (k.text ∙ sym (append_assoc k.t (codes ":") s)) k.stored k.buffer

  pub first_word :
      (st : V6) (s : Bytes)
      → Kept s0 (suc n) st s
      → st.c ≡ false
      → Holds (IsAddress s0) (read_word (suc n) st more s)
  first_word st s k none' =
      read_word-IsAddress st s false k.t k.left k.right k.raw
        (subst (λ c. Groups (suc n) (has_gap st.b) c k.t k.left k.right) none' k.groups)
        (k.text ∙ ap (λ r. r ++ s) (sym (append-nil k.t))) k.stored k.buffer

  gap-Kept :
      (st : V6) (s : Bytes)
      → Kept s0 (suc n) st (b':' ∷ b':' ∷ s)
      → st.b ≡ none
      → Kept s0 n (record st { b = some (suc n - 1); c = false }) s
  gap-Kept st s k first =
      let groups : Groups (suc n) false st.c k.t k.left k.right =
        subst (λ b. Groups (suc n) (has_gap b) st.c k.t k.left k.right) first k.groups in
      let (e, f, l, le) : Stored none (suc n) k.left k.right k.raw =
        subst (λ b. Stored b (suc n) k.left k.right k.raw) first k.stored in
      record {
        t = k.t ++ codes "::";
        left = k.left;
        right = k.right;
        raw = k.raw ++ 0 ∷ 0 ∷ [];
        groups = double_colon groups;
        text = k.text ∙ sym (append_assoc k.t (codes "::") s);
        stored = (
          ap₂ (λ q r. q ++ 0 ∷ 0 ∷ r) e (sym f),
          omega (arith, l),
          omega (arith, ap length f),
          omega arith,
          omega (arith, le),
        );
        buffer =
            k.buffer
            ∙ ap (◌++◌ k.raw) (zeros_two n)
            ∙ sym (append_assoc k.raw (0 ∷ 0 ∷ []) (zeros (2 * n)));
        last = tt;
      }

  pub after_colon-IsAddress :
      (st : V6) (s : Bytes)
      → Kept s0 (suc n) st (b':' ∷ s)
      → Holds (IsAddress s0) (after_colon (suc n) st more s)
  unfolding after_colon
  after_colon-IsAddress st [] k = tt
  after_colon-IsAddress st (y ∷ s) k = elim (Bool-cases (y == b':')) [
    | inr other ↦ elim (Bool-cases st.c) [
      | inl word ↦ rw (other, after_colon, word) (next_word st (y ∷ s) k word)
      | inr none' ↦ rw (other, after_colon, none') tt
    ]
    | inl colon ↦ elim (Option-cases st.b) [
      | inr (b, second) ↦ rw (colon, after_colon, second) tt
      | inl first ↦
          let k1 : Kept s0 (suc n) st (b':' ∷ b':' ∷ s) =
            subst (λ c. Kept s0 (suc n) st (b':' ∷ c ∷ s)) ((==_iff y b':').0 colon) k in
          rw (colon, after_colon, first)
            (h (record st { b = some (suc n - 1); c = false }) s (gap-Kept st s k1 first))
    ]
  ]
