-- ===== src/Grammar/Yields.antt =====
-- What rules take from the front of their input. Every combinator of rules keeps to it.
-- The input `s` is some characters and the input that is left, and `P` relates those characters and
-- the value.
use boost_url.Base.{
  ℕ, ◌-◌, ◌<◌, ◌≡◌, refl, sym, ap, ◌∙◌, inl, inr, true, Option, none, some, [], ◌∷◌, ◌++◌,
  append_assoc, arith, ◌==◌, if◌then◌else◌, Bool-cases, ==_iff, Bytes, length, is_empty,
  length-append, take-append, All, Holds, Holds-map, Result, mismatch, err, ok,
}
use boost_url.Chars.{CharSet}
use boost_url.Grammar.{
  Rule, delim_rule, ◌>>=◌, give, consumed, find_if_not, token_rule, optional_rule, not_empty_rule,
}

abbrev pub Taken {ℓ} : {T : Type ℓ} → (Bytes → T → Type 0) → Bytes → T × Bytes → Type 0
Taken P s p = (t : Bytes) × (s ≡ t ++ p.1) × P t (p.0)

-- Where the rule succeeds, it takes characters that `P` relates to its value.
abbrev pub Yields {ℓ} : {T : Type ℓ} → (Bytes → T → Type 0) → Rule T → Type 0
Yields P r = (s : Bytes) → Holds (Taken P s) (r s)

module _ {ℓ κ} {S : Type ℓ} {T : Type κ} (P : Bytes → S → Type 0) (Q : Bytes → T → Type 0)
    (next : S → Rule T) where
  after-bind :
      (s : Bytes) (r : Result (S × Bytes))
      → Holds (Taken P s) r
      → ((t : Bytes) (v : S) → P t v → Yields (λ t1 w. Q (t ++ t1) w) (next v))
      → Holds (Taken Q s) (elim r [ err why ↦ err why | ok (value, rest) ↦ next value rest ])
  after-bind s (err why) h k = tt
  after-bind s (ok (v, rest)) (t, e, p) k =
      Holds-map _ _ (next v rest) (k t v p rest)
        (λ w (t1, e1, q). (t ++ t1, e ∙ ap (◌++◌ t) e1 ∙ sym (append_assoc t t1 (w.1)), q))

  pub Yields-bind :
      (r : Rule S)
      → Yields P r
      → ((t : Bytes) (v : S) → P t v → Yields (λ t1 w. Q (t ++ t1) w) (next v))
      → Yields Q (r >>= next)
  Yields-bind r h k s = after-bind s (r s) (h s) k

pub Yields-give {ℓ} : {T : Type ℓ} (Q : Bytes → T → Type 0) (v : T) → Q [] v → Yields Q (give v)
Yields-give Q v q s = ([], refl, q)

pub Yields-map {ℓ} :
    {T : Type ℓ} (P Q : Bytes → T → Type 0) (r : Rule T)
    → Yields P r
    → ((t : Bytes) (v : T) → P t v → Q t v)
    → Yields Q r
Yields-map P Q r h k s = Holds-map _ _ (r s) (h s) (λ p (t, e, q). (t, e, k t (p.0) q))

-- The characters that an optional rule takes.
abbrev pub Maybe {ℓ} : {T : Type ℓ} → (Bytes → T → Type 0) → Bytes → Option T → Type 0
Maybe P t none = t ≡ []
Maybe P t (some v) = P t v

pub optional_rule-Yields {ℓ} :
    {T : Type ℓ} (P : Bytes → T → Type 0) (r : Rule T)
    → Yields P r
    → Yields (Maybe P) (optional_rule r)
unfolding optional_rule
optional_rule-Yields P r h [] = ([], refl, refl)
optional_rule-Yields {T} P r h (c ∷ s) = taken (r (c ∷ s)) (h (c ∷ s))
  where
    taken :
        (x : Result (T × Bytes))
        → Holds (Taken P (c ∷ s)) x
        → Holds
            (Taken (Maybe P) (c ∷ s))
            (elim x [ err _ ↦ ok (none, c ∷ s) | ok (value, rest) ↦ ok (some value, rest) ])
    taken (err why) h = ([], refl, refl)
    taken (ok (v, rest)) h = h

pub not_empty_rule-Yields {ℓ} :
    {T : Type ℓ} (P : Bytes → T → Type 0) (r : Rule T)
    → Yields P r
    → Yields (λ t v. (0 < length t) × P t v) (not_empty_rule r)
unfolding not_empty_rule
not_empty_rule-Yields P r h [] = tt
not_empty_rule-Yields {T} P r h (c ∷ s) = taken (r (c ∷ s)) (h (c ∷ s))
  where
    taken :
        (x : Result (T × Bytes))
        → Holds (Taken P (c ∷ s)) x
        → Holds (Taken (λ t v. (0 < length t) × P t v) (c ∷ s)) (elim x [
          | err why ↦ err why
          | ok (value, rest) ↦
              if length rest == length (c ∷ s) then err mismatch else ok (value, rest)
        ])
    taken (err why) h = tt
    taken (ok (v, rest)) (t, e, p) = elim (Bool-cases (length rest == length (c ∷ s))) [
      | inl same ↦ rw same tt
      | inr less ↦ rw less (t, e, (ground (arith, ap length e, length-append t rest), p))
    ]

-- `string_view(it0, it - it0)` is what was taken.
pub consumed-append : (t rest : Bytes) → consumed (t ++ rest) rest ≡ t
unfolding consumed
consumed-append t rest =
    let n : length (t ++ rest) - length rest ≡ length t = omega (arith, length-append t rest) in
    rw n (take-append t rest)

pub find_if_not-append :
    (cs : CharSet) (s : Bytes) → s ≡ (find_if_not cs s).0 ++ (find_if_not cs s).1
unfolding find_if_not
find_if_not-append cs [] = refl
find_if_not-append cs (c ∷ s) = elim (Bool-cases (cs c)) [
  | inl member ↦ rw (member, find_if_not) (ap (◌∷◌ c) (find_if_not-append cs s))
  | inr other ↦ rw (other, find_if_not)
]

pub find_if_not-All : (cs : CharSet) (s : Bytes) → All (λ c. cs c ≡ true) (find_if_not cs s).0
unfolding find_if_not
find_if_not-All cs [] = tt
find_if_not-All cs (c ∷ s) = elim (Bool-cases (cs c)) [
  | inl member ↦ rw (member, find_if_not) (member, find_if_not-All cs s)
  | inr other ↦ rw (other, find_if_not) tt
]

pub delim_rule-Yields : (ch : ℕ) → Yields (λ t _. t ≡ ch ∷ []) (delim_rule ch)
unfolding delim_rule
delim_rule-Yields ch [] = tt
delim_rule-Yields ch (c ∷ s) = elim (Bool-cases (c == ch)) [
  | inl same ↦ rw same (c ∷ [], refl, ap (λ x. x ∷ []) ((==_iff c ch).0 same))
  | inr other ↦ rw other tt
]

pub token_rule-Yields :
    (cs : CharSet)
    → Yields (λ t v. (v ≡ t) × (0 < length t) × All (λ c. cs c ≡ true) t) (token_rule cs)
unfolding token_rule
token_rule-Yields cs [] = tt
token_rule-Yields cs (c ∷ s) =
    taken (find_if_not cs (c ∷ s)) (find_if_not-append cs (c ∷ s)) (find_if_not-All cs (c ∷ s))
  where
    taken :
        (x : Bytes × Bytes)
        → c ∷ s ≡ x.0 ++ x.1
        → All (λ c. cs c ≡ true) x.0
        → Holds
            (Taken (λ t v. (v ≡ t) × (0 < length t) × All (λ c. cs c ≡ true) t) (c ∷ s))
            (if is_empty x.0 then err mismatch else ok (x.0, x.1))
    taken ([], rest) e a = tt
    taken (d ∷ t, rest) e a = (d ∷ t, e, (refl, omega arith, a))

-- A character that was read in front.
pub Holds-cons {ℓ} :
    {T : Type ℓ} (Q : Bytes → T → Type 0) (c : ℕ) (s : Bytes) (x : Result (T × Bytes))
    → Holds (Taken (λ t v. Q (c ∷ t) v) s) x
    → Holds (Taken Q (c ∷ s)) x
Holds-cons Q c s x h = Holds-map _ _ x h (λ p (t, e, q). (c ∷ t, ap (◌∷◌ c) e, q))
