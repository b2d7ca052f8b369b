-- ===== src/Rfc/PctEncoded/Complete.antt =====
-- `pct_encoded_rule` takes all that it can.
use boost_url.Base.{
  ℕ, ◌+◌, ◌≡◌, refl, ap, ◌∙◌, inl, inr, Bool, true, false, not, ◌&&◌, [], ◌∷◌, ◌++◌, arith, ◌==◌,
  Bool-cases, ==_iff, Bytes, ok,
}
use boost_url.Chars.{CharSet}
use boost_url.Grammar.Yields.{consumed-append}
use boost_url.Pct.Grammar.{Encoded, done, byte, triple}
use boost_url.Pct.View.{construct}
use boost_url.Rfc.PctEncoded.{hex_pair, pct_scan, default_opts, pct_encoded_rule, pct_scan-itself}

-- What may stand behind: the end, or a character that is not in the set and is no '%'.
abbrev pub Ends : CharSet → Bytes → Type 0
Ends cs [] = Unit
Ends cs (c ∷ s) = (cs c ≡ false) × ((c == b'%') ≡ false)

pct_scan-Ends :
    (cs : CharSet) (behind : Bool) (m : ℕ) (rest : Bytes)
    → Ends cs rest
    → pct_scan cs behind m rest ≡ ok (m, rest)
unfolding pct_scan
pct_scan-Ends cs behind m [] h = refl
pct_scan-Ends cs behind m (c ∷ []) (h, k) = rw (h, k) refl
pct_scan-Ends cs behind m (c ∷ d ∷ []) (h, k) = rw (h, pct_scan, k) refl
pct_scan-Ends cs behind m (c ∷ d ∷ e ∷ s) (h, k) = rw (h, pct_scan, k) refl

module _ (cs : CharSet) (no_pct : cs b'%' ≡ false) where
  itself : (behind : Bool) (c : ℕ) → cs c ≡ true → (cs c && not (behind && c == b'%')) ≡ true
  itself behind c h = elim (Bool-cases (c == b'%')) [
    | inl pct ↦ absurd (let e : c ≡ b'%' = (==_iff c b'%').0 pct in cc)
    | inr other ↦ ground arith
  ]

  pct_scan-escape :
      (behind : Bool) (m h l : ℕ) (s : Bytes)
      → hex_pair h l ≡ true
      → pct_scan cs behind m (b'%' ∷ h ∷ l ∷ s) ≡ pct_scan cs true (m + 1) s
  unfolding pct_scan
  pct_scan-escape behind m h l s good = rw (no_pct, pct_scan, good) refl

  pct_scan-Encoded :
      (t : Bytes) (n : ℕ)
      → Encoded cs hex_pair t n
      → (behind : Bool) (m : ℕ) (rest : Bytes) → Ends cs rest
      → pct_scan cs behind m (t ++ rest) ≡ ok (m + n, rest)
  pct_scan-Encoded t n done behind m rest h =
      pct_scan-Ends cs behind m rest h ∙ ap (λ z. ok (z, rest)) (omega arith)
  pct_scan-Encoded t n (byte {c} {n = k} {s} member r) behind m rest h =
      pct_scan-itself cs behind m c (s ++ rest) (itself behind c member)
      ∙ pct_scan-Encoded s k r false (m + 1) rest h
      ∙ ap (λ z. ok (z, rest)) (omega arith)
  pct_scan-Encoded t n (triple {c} {h = x} {l = y} {n = k} {s} e good r) behind m rest h =
      ap (λ z. pct_scan cs behind m (z ∷ x ∷ y ∷ (s ++ rest))) e
      ∙ pct_scan-escape behind m x y (s ++ rest) good
      ∙ pct_scan-Encoded s k r true (m + 1) rest h
      ∙ ap (λ z. ok (z, rest)) (omega arith)

  -- A text of bytes of the set and whole escapes is taken whole, whatever it is followed by: the end,
  -- or a character that is not in the set and no '%'. The view has that text and its decoded size.
  pub pct_encoded_rule-Encoded :
      (t : Bytes) (n : ℕ)
      → Encoded cs hex_pair t n
      → (rest : Bytes) → Ends cs rest
      → pct_encoded_rule cs (t ++ rest) ≡ ok (construct t n default_opts, rest)
  unfolding pct_encoded_rule construct
  pct_encoded_rule-Encoded t n r rest h =
      rw (pct_scan-Encoded t n r false 0 rest h, pct_encoded_rule, consumed-append t rest)
        (ap (λ z. ok (construct t z default_opts, rest)) (omega arith))
