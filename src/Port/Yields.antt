-- ===== src/Port/Yields.antt =====
-- The texts that the rules for ports take.
use boost_url.Base.{
  ℕ, ◌+◌, ◌-◌, ◌*◌, ◌%◌, ◌^◌, ◌≡◌, refl, sym, ap, ◌∙◌, ◌⊎◌, inl, inr, true, false, [], ◌∷◌, ◌++◌,
  append_assoc, ltb, ◌==◌, Bool-cases, ==_iff, Bytes, All,
}
use boost_url.Chars.{digit_chars}
use boost_url.Grammar.Yields.{Yields}
use boost_url.Port.{port_overflow, port_loop, port_rule, port_part_rule, PortValue, PortPart}

-- What was read and what is left are the digits so far and the input.
abbrev Digits : Bytes → Bytes → PortValue × Bytes → Type 0
Digits digits s p = (digits ++ s ≡ p.0.str ++ p.1) × All (λ c. digit_chars c ≡ true) p.0.str

All-snoc : (P : ℕ → Type 0) (xs : Bytes) (c : ℕ) → All P xs → P c → All P (xs ++ c ∷ [])
All-snoc P [] c h k = (k, tt)
All-snoc P (x ∷ xs) c (h, hs) k = (h, All-snoc P xs c hs k)

port_overflow-Digits :
    (digits s : Bytes)
    → All (λ c. digit_chars c ≡ true) digits
    → Digits digits s (port_overflow digits s)
unfolding port_overflow
port_overflow-Digits digits [] h = (refl, h)
port_overflow-Digits digits (c ∷ s) h = elim (Bool-cases (digit_chars c)) [
  | inr other ↦ rw other (refl, h)
  | inl digit ↦
      let (e, k) =
        port_overflow-Digits (digits ++ c ∷ []) s
          (All-snoc (λ d. digit_chars d ≡ true) digits c h digit) in
      rw digit (sym (append_assoc digits (c ∷ []) s) ∙ e, k)
]

port_loop-Digits :
    (digits : Bytes) (u : ℕ) (s : Bytes)
    → All (λ c. digit_chars c ≡ true) digits
    → Digits digits s (port_loop digits u s)
unfolding port_loop
port_loop-Digits digits u [] h = (refl, h)
port_loop-Digits digits u (c ∷ s) h = elim (Bool-cases (digit_chars c)) [
  | inr other ↦ rw other (refl, h)
  | inl digit ↦
      let more = All-snoc (λ d. digit_chars d ≡ true) digits c h digit in
      elim (Bool-cases (ltb ((10 * u + c - b'0') % 2 ^ 16) u)) [
        | inl wrapped ↦
            let (e, k) = port_overflow-Digits (digits ++ c ∷ []) s more in
            rw (digit, wrapped) (sym (append_assoc digits (c ∷ []) s) ∙ e, k)
        | inr fits ↦
            let (e, k) =
              port_loop-Digits (digits ++ c ∷ []) ((10 * u + c - b'0') % 2 ^ 16) s more in
            rw (digit, fits) (sym (append_assoc digits (c ∷ []) s) ∙ e, k)
      ]
]

-- [ ":" *DIGIT ]
abbrev pub IsPortPart : Bytes → PortPart → Type 0
IsPortPart t v =
    ((t ≡ []) × (v.has_port ≡ false))
    ⊎ ((t ≡ b':' ∷ v.port) × (v.has_port ≡ true) × All (λ c. digit_chars c ≡ true) v.port)

-- `port_part_rule` always succeeds. It takes nothing, or a ':' and the digits that are its port.
pub port_part_rule-Yields : Yields IsPortPart port_part_rule
unfolding port_part_rule port_rule
port_part_rule-Yields [] = ([], refl, inl (refl, refl))
port_part_rule-Yields (c ∷ s) = elim (Bool-cases (c == b':')) [
  | inr other ↦ rw other ([], refl, inl (refl, refl))
  | inl colon ↦
      let (e, k) = port_loop-Digits [] 0 s tt in
      rw colon (
        c ∷ (port_loop [] 0 s).0.str,
        ap (◌∷◌ c) e,
        inr (ap (λ x. x ∷ (port_loop [] 0 s).0.str) ((==_iff c b':').0 colon), refl, k),
      )
]
