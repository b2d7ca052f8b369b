-- ===== src/Pct/Grammar.antt =====
-- What the two overloads of `validate_pct_encoding` accept, as a grammar.
use boost_url.Base.{
  ℕ, zero, suc, ◌≡◌, refl, ◌∙◌, ◌↔◌, ◌⊎◌, inl, inr, Bool, true, false, not, ◌&&◌, ◌||◌, Option,
  none, some, [], ◌∷◌, arith, ◌==◌, Bool-cases, Bytes, Option-cases, Error, Result, illegal_null,
  illegal_reserved_char, non_canonical, bad_pct_hexdig, ok, err,
}
use boost_url.Chars.{CharSet, hexdig_value}
use boost_url.Pct.Decode.{decode_hex, PctDecodeOpts}
use boost_url.Pct.Validate.{
  one_more, judge, bad_digits, judge_escape, validate_in_set, plain, escape, refused,
}
use mathlib.Core.Path.{subst}

-- `s` is made of bytes that pass `plain_ok` and of escapes whose digits pass `escape_ok`, and
-- stands for `n` bytes.
pub data Encoded (plain_ok : CharSet) (escape_ok : ℕ → ℕ → Bool) : Bytes → ℕ → Type 0 where
  done : Encoded plain_ok escape_ok [] zero
  byte :
      {c n : ℕ} {s : Bytes}
      → plain_ok c ≡ true
      → Encoded plain_ok escape_ok s n
      → Encoded plain_ok escape_ok (c ∷ s) (suc n)
  triple :
      {c h l n : ℕ} {s : Bytes}
      → c ≡ b'%'
      → escape_ok h l ≡ true
      → Encoded plain_ok escape_ok s n
      → Encoded plain_ok escape_ok (c ∷ h ∷ l ∷ s) (suc n)

abbrev is_some {ℓ} : {A : Type ℓ} → Option A → Bool
is_some none = false
is_some (some _) = true

-- The bytes and the escapes that the options and the set allow.
unfoldable pub plain_in_set : CharSet → PctDecodeOpts → CharSet
plain_in_set allowed opt c = allowed c && (opt.allow_null || not (c == 0))

unfoldable pub escape_in_set : CharSet → PctDecodeOpts → ℕ → ℕ → Bool
escape_in_set allowed opt h l =
    (is_some (hexdig_value h) && is_some (hexdig_value l))
    && ((opt.allow_null || not (decode_hex h l == 0))
        && not (opt.non_normal_is_error && allowed (decode_hex h l)))

module _ (allowed : CharSet) (opt : PctDecodeOpts) (no_pct : allowed b'%' ≡ false) where
  abbrev InSet : Bytes → ℕ → Type 0
  InSet = Encoded (plain_in_set allowed opt) (escape_in_set allowed opt)

  judge-cases :
      (c : ℕ)
      → (judge allowed opt c ≡ plain) × (plain_in_set allowed opt c ≡ true)
        ⊎ (judge allowed opt c ≡ escape) × (c ≡ b'%')
        ⊎ ((why : Error) × (judge allowed opt c ≡ refused why))
  unfolding judge plain_in_set
  judge-cases c = elim (Bool-cases (not opt.allow_null && c == 0)) [
    | inl null ↦ inr (inr (illegal_null, rw null))
    | inr fine ↦ elim (Bool-cases (allowed c)) [
      | inl member ↦ inl (rw (fine, member), ground arith)
      | inr other ↦ elim (Bool-cases (c == b'%')) [
        | inl pct ↦ inr (inl (rw (fine, other, pct), ground arith))
        | inr reserved ↦ inr (inr (illegal_reserved_char, rw (fine, other, reserved)))
      ]
    ]
  ]

  judge_escape-cases :
      (h l : ℕ)
      → (judge_escape allowed opt h l ≡ none) × (escape_in_set allowed opt h l ≡ true)
        ⊎ ((why : Error) × (judge_escape allowed opt h l ≡ some why))
  unfolding judge_escape escape_in_set bad_digits
  judge_escape-cases h l = elim (Option-cases (hexdig_value h)) [
    | inl e ↦ inr (bad_pct_hexdig, rw (e, judge_escape))
    | inr (x, e) ↦ elim (Option-cases (hexdig_value l)) [
      | inl f ↦ inr (bad_pct_hexdig, rw (e, judge_escape, f, judge_escape))
      | inr (y, f) ↦ elim (Bool-cases (not opt.allow_null && decode_hex h l == 0)) [
        | inl null ↦ inr (illegal_null, rw (e, judge_escape, f, judge_escape, null))
        | inr fine ↦ elim (Bool-cases (opt.non_normal_is_error && allowed (decode_hex h l))) [
          | inl odd ↦ inr (non_canonical, rw (e, judge_escape, f, judge_escape, fine, odd))
          | inr normal ↦
              inl (rw (e, judge_escape, f, judge_escape, fine, normal), rw (e, f) (ground arith))
        ]
      ]
    ]
  ]

  abbrev Accepts : Bytes → Result ℕ → Type 0
  Accepts s (ok n) = InSet s n
  Accepts s (err _) = Unit

  Accepts-one_more :
      (c : ℕ) (s : Bytes) (r : Result ℕ)
      → plain_in_set allowed opt c ≡ true
      → Accepts s r
      → Accepts (c ∷ s) (one_more r)
  Accepts-one_more c s (ok n) p a = byte p a
  Accepts-one_more c s (err _) p a = tt

  Accepts-triple :
      (c h l : ℕ) (s : Bytes) (r : Result ℕ)
      → c ≡ b'%'
      → escape_in_set allowed opt h l ≡ true
      → Accepts s r
      → Accepts (c ∷ h ∷ l ∷ s) (one_more r)
  Accepts-triple c h l s (ok n) e p a = triple e p a
  Accepts-triple c h l s (err _) e p a = tt

  validate_in_set-Accepts : (s : Bytes) → Accepts s (validate_in_set allowed opt s)
  unfolding validate_in_set
  validate_in_set-Accepts [] = done
  validate_in_set-Accepts (c ∷ []) = elim (judge-cases c) [
    | inl (e, p) ↦ rw (e, validate_in_set) (byte p done)
    | inr (inl (e, p)) ↦ rw (e, validate_in_set) tt
    | inr (inr (why, e)) ↦ rw (e, validate_in_set) tt
  ]
  validate_in_set-Accepts (c ∷ d ∷ []) = elim (judge-cases c) [
    | inl (e, p) ↦
        rw (e, validate_in_set) (Accepts-one_more c (d ∷ []) _ p (validate_in_set-Accepts (d ∷ [])))
    | inr (inl (e, p)) ↦ rw (e, validate_in_set) tt
    | inr (inr (why, e)) ↦ rw (e, validate_in_set) tt
  ]
  validate_in_set-Accepts (c ∷ d ∷ f ∷ s) = elim (judge-cases c) [
    | inl (e, p) ↦
        rw (e, validate_in_set)
          (Accepts-one_more c (d ∷ f ∷ s) _ p (validate_in_set-Accepts (d ∷ f ∷ s)))
    | inr (inl (e, p)) ↦ elim (judge_escape-cases d f) [
      | inl (g, q) ↦
          rw (e, validate_in_set, g) (Accepts-triple c d f s _ p q (validate_in_set-Accepts s))
      | inr (why, g) ↦ rw (e, validate_in_set, g) tt
    ]
    | inr (inr (why, e)) ↦ rw (e, validate_in_set) tt
  ]

  judge-plain : (c : ℕ) → plain_in_set allowed opt c ≡ true → judge allowed opt c ≡ plain
  unfolding judge plain_in_set
  judge-plain c h = ground arith

  judge-escape : judge allowed opt b'%' ≡ escape
  unfolding judge
  judge-escape = ground arith

  judge_escape-none :
      (h l : ℕ) → escape_in_set allowed opt h l ≡ true → judge_escape allowed opt h l ≡ none
  unfolding judge_escape escape_in_set bad_digits
  judge_escape-none h l p = ground arith

  validate_in_set-plain :
      (c : ℕ) (s : Bytes)
      → plain_in_set allowed opt c ≡ true
      → validate_in_set allowed opt (c ∷ s) ≡ one_more (validate_in_set allowed opt s)
  unfolding validate_in_set
  validate_in_set-plain c [] p = rw (judge-plain c p, validate_in_set)
  validate_in_set-plain c (d ∷ []) p = rw (judge-plain c p, validate_in_set)
  validate_in_set-plain c (d ∷ f ∷ s) p = rw (judge-plain c p, validate_in_set)

  validate_in_set-triple :
      (h l : ℕ) (s : Bytes)
      → escape_in_set allowed opt h l ≡ true
      → validate_in_set allowed opt (b'%' ∷ h ∷ l ∷ s) ≡ one_more (validate_in_set allowed opt s)
  unfolding validate_in_set
  validate_in_set-triple h l s p =
      rw (judge-escape, validate_in_set, judge_escape-none h l p, validate_in_set)

  validate_in_set_complete : {s : Bytes} {n : ℕ} → InSet s n → validate_in_set allowed opt s ≡ ok n
  validate_in_set_complete done = unfold validate_in_set in refl
  validate_in_set_complete (byte {c} {s = s} p r) =
      validate_in_set-plain c s p ∙ rw (validate_in_set_complete r)
  validate_in_set_complete (triple {h = h} {l} {s = s} e p r) =
      rw e (validate_in_set-triple h l s p ∙ rw (validate_in_set_complete r))

  -- The overload with a set accepts a string with result `n` exactly when the string is made of
  -- bytes of the set and escapes of two hexadecimal digits, standing for `n` bytes, with no NUL
  -- unless `allow_null`, and no escape of a byte of the set if `non_normal_is_error`.
  pub validate_in_set_iff :
      (s : Bytes) (n : ℕ)
      → (validate_in_set allowed opt s ≡ ok n)
        ↔ Encoded (plain_in_set allowed opt) (escape_in_set allowed opt) s n
  validate_in_set_iff s n =
      (λ e. subst (Accepts s) e (validate_in_set-Accepts s), λ h. validate_in_set_complete h)

pub plain_in_set-pct :
    (allowed : CharSet) (opt : PctDecodeOpts)
    → allowed b'%' ≡ false
    → plain_in_set allowed opt b'%' ≡ false
unfolding plain_in_set
plain_in_set-pct allowed opt h = rw h
