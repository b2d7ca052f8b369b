-- ===== src/Rfc/PctEncoded.antt =====
-- `pct_encoded_rule(cs)`: rfc/impl/pct_encoded_rule.hpp.
pub mod Complete
use boost_url.Base.{
  ℕ, suc, ◌+◌, ◌≡◌, refl, ap, inl, inr, Bool, true, false, not, ◌&&◌, none, some, [], ◌∷◌, arith,
  ◌==◌, if◌then◌else◌, Bool-cases, ==_iff, Bytes, Holds, Holds-map, Result, invalid, err, ok,
}
use boost_url.Chars.{CharSet, hexdig_value}
use boost_url.Grammar.{Rule, consumed}
use boost_url.Grammar.Yields.{Taken, consumed-append}
use boost_url.Pct.Decode.{PctDecodeOpts}
use boost_url.Pct.Grammar.{Encoded, done, byte, triple}
use boost_url.Pct.View.{construct, PctEncodedView}
use mathlib.Core.Path.{subst}

abbrev pub is_hexdig : ℕ → Bool
is_hexdig c = elim (hexdig_value c) [ none ↦ false | some _ ↦ true ]

-- The two characters behind a '%'.
abbrev pub hex_pair : ℕ → ℕ → Bool
hex_pair h l = is_hexdig h && is_hexdig l

-- The loops, with the count so far. Directly behind an escape a '%' starts another, without a look
-- into the set.
unfoldable pub pct_scan : CharSet → Bool → ℕ → Rule ℕ
pct_scan cs behind n [] = ok (n, [])
pct_scan cs behind n (c ∷ []) =
    if cs c && not (behind && c == b'%')
    then ok (n + 1, [])
    else if c == b'%'
    then err invalid
    else ok (n, c ∷ [])
pct_scan cs behind n (c ∷ d ∷ []) = elim (cs c && not (behind && c == b'%')) [
  | true ↦ pct_scan cs false (n + 1) (d ∷ [])
  | false ↦ if c == b'%' then err invalid else ok (n, c ∷ d ∷ [])
]
pct_scan cs behind n (c ∷ d ∷ e ∷ s) = elim (cs c && not (behind && c == b'%')) [
  | true ↦ pct_scan cs false (n + 1) (d ∷ e ∷ s)
  | false ↦ elim (c == b'%') [
    | false ↦ ok (n, c ∷ d ∷ e ∷ s)
    | true ↦ elim (hex_pair d e) [ false ↦ err invalid | true ↦ pct_scan cs true (n + 1) s ]
  ]
]

abbrev pub default_opts : PctDecodeOpts
default_opts = record { allow_null = true; plus_to_space = true; non_normal_is_error = false }

unfoldable pub pct_encoded_rule : CharSet → Rule PctEncodedView
unfolding pct_scan consumed construct
pct_encoded_rule cs s = elim (pct_scan cs false 0 s) [
  | err why ↦ err why
  | ok (n, rest) ↦ ok (construct (consumed s rest) n default_opts, rest)
]

-- The value is the view of what was taken: bytes of the set and whole escapes, as many as the view's
-- size.
abbrev pub IsPctEncoded : CharSet → Bytes → PctEncodedView → Type 0
IsPctEncoded cs t v = (v.encoded ≡ t) × Encoded cs hex_pair t v.dn_

-- A character that stands for itself, whatever follows.
pub pct_scan-itself :
    (cs : CharSet) (behind : Bool) (n c : ℕ) (s : Bytes)
    → (cs c && not (behind && c == b'%')) ≡ true
    → pct_scan cs behind n (c ∷ s) ≡ pct_scan cs false (n + 1) s
unfolding pct_scan
pct_scan-itself cs behind n c [] h = rw h
pct_scan-itself cs behind n c (d ∷ []) h = rw (h, pct_scan)
pct_scan-itself cs behind n c (d ∷ e ∷ s) h = rw (h, pct_scan)

abbrev Scanned : CharSet → ℕ → Bytes → ℕ → Type 0
Scanned cs n t m = (k : ℕ) × (m ≡ n + k) × Encoded cs hex_pair t k

Scanned-byte :
    (cs : CharSet) (behind : Bool) (n c : ℕ) (s : Bytes)
    → (cs c && not (behind && c == b'%')) ≡ true
    → Holds (Taken (Scanned cs (n + 1)) s) (pct_scan cs false (n + 1) s)
    → Holds (Taken (Scanned cs n) (c ∷ s)) (pct_scan cs behind n (c ∷ s))
Scanned-byte cs behind n c s h rest = rw (pct_scan-itself cs behind n c s h) (
    Holds-map (Taken (Scanned cs (n + 1)) s) (Taken (Scanned cs n) (c ∷ s))
      (pct_scan cs false (n + 1) s) rest
      (λ p (t, e, (k, f, r)).
        (c ∷ t, ap (◌∷◌ c) e, (suc k, omega (arith, f), byte (ground arith) r))))

Scanned-none : (cs : CharSet) (n : ℕ) (s : Bytes) → Taken (Scanned cs n) s (n, s)
Scanned-none cs n s = ([], refl, (0, omega arith, done))

pct_scan-Scanned :
    (cs : CharSet) (behind : Bool) (n : ℕ) (s : Bytes)
    → Holds (Taken (Scanned cs n) s) (pct_scan cs behind n s)
unfolding pct_scan
pct_scan-Scanned cs behind n [] = Scanned-none cs n []
pct_scan-Scanned cs behind n (c ∷ []) = elim (Bool-cases (cs c && not (behind && c == b'%'))) [
  | inl itself ↦ Scanned-byte cs behind n c [] itself (pct_scan-Scanned cs false (n + 1) [])
  | inr other ↦ elim (Bool-cases (c == b'%')) [
    | inl pct ↦ rw (other, pct) tt
    | inr end ↦ rw (other, end) (Scanned-none cs n (c ∷ []))
  ]
]
pct_scan-Scanned cs behind n (c ∷ d ∷ []) = elim (Bool-cases (cs c && not (behind && c == b'%'))) [
  | inl itself ↦
      Scanned-byte cs behind n c (d ∷ []) itself (pct_scan-Scanned cs false (n + 1) (d ∷ []))
  | inr other ↦ elim (Bool-cases (c == b'%')) [
    | inl pct ↦ rw (other, pct_scan, pct) tt
    | inr end ↦ rw (other, pct_scan, end) (Scanned-none cs n (c ∷ d ∷ []))
  ]
]
pct_scan-Scanned cs behind n (c ∷ d ∷ e ∷ s) =
    elim (Bool-cases (cs c && not (behind && c == b'%'))) [
      | inl itself ↦
          Scanned-byte cs behind n c (d ∷ e ∷ s) itself
            (pct_scan-Scanned cs false (n + 1) (d ∷ e ∷ s))
      | inr other ↦ elim (Bool-cases (c == b'%')) [
        | inr end ↦ rw (other, pct_scan, end) (Scanned-none cs n (c ∷ d ∷ e ∷ s))
        | inl pct ↦ elim (Bool-cases (hex_pair d e)) [
          | inr bad ↦ rw (other, pct_scan, pct, pct_scan, bad) tt
          | inl good ↦
              rw (other, pct_scan, pct, pct_scan, good)
                (Holds-map (Taken (Scanned cs (n + 1)) s) (Taken (Scanned cs n) (c ∷ d ∷ e ∷ s))
                  (pct_scan cs true (n + 1) s) (pct_scan-Scanned cs true (n + 1) s)
                  (λ p (t, f, (k, g, r)). (
                    c ∷ d ∷ e ∷ t,
                    ap (λ x. c ∷ d ∷ e ∷ x) f,
                    (suc k, omega (arith, g), triple ((==_iff c b'%').0 pct) good r),
                  )))
        ]
      ]
    ]

-- Where `pct_encoded_rule` of any set succeeds, its value is the view of what it took: bytes of the
-- set and whole escapes, as many as the size of the view.
pub pct_encoded_rule-Yields :
    (cs : CharSet) (s : Bytes) → Holds (Taken (IsPctEncoded cs) s) (pct_encoded_rule cs s)
unfolding pct_encoded_rule construct
pct_encoded_rule-Yields cs s = taken (pct_scan cs false 0 s) (pct_scan-Scanned cs false 0 s)
  where
    taken :
        (x : Result (ℕ × Bytes))
        → Holds (Taken (Scanned cs 0) s) x
        → Holds (Taken (IsPctEncoded cs) s) (elim x [
          | err why ↦ err why
          | ok (n, rest) ↦ ok (construct (consumed s rest) n default_opts, rest)
        ])
    taken (err why) h = tt
    taken (ok (n, rest)) (t, e, (k, f, r)) =
        (t, e, (rw e (consumed-append t rest), subst (Encoded cs hex_pair t) (omega (arith, f)) r))
