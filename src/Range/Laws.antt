-- ===== src/Range/Laws.antt =====
-- What a range rule takes, and that its loop ends.
-- A string of `n` elements one behind the other.
use boost_url.Base.{
  ℕ, zero, suc, ◌+◌, ◌≤◌, ◌<◌, ◌≡◌, refl, sym, ap, ◌∙◌, ◌⊎◌, inl, inr, true, false, [], ◌++◌,
  append_assoc, arith, ltb, leb, Bool-cases, Bytes, length, Holds, Holds-map, Error, Result,
  mismatch, err, ok,
}
use boost_url.Grammar.{Rule}
use boost_url.Grammar.Yields.{Taken, Yields, consumed-append}
use boost_url.Range.{range_loop, at_least, range_rule, Range}

pub data Elements (G : Bytes → Type 0) : Bytes → ℕ → Type 0 where
  no_more : Elements G [] 0
  element : {t u : Bytes} {n : ℕ} → G t → Elements G u n → Elements G (t ++ u) (suc n)

-- An element `F`, then elements `G`, or nothing; and `lo` elements at least.
abbrev pub IsRange : ℕ → (Bytes → Type 0) → (Bytes → Type 0) → Bytes → Range → Type 0
IsRange lo F G t v =
    (v.string ≡ t)
    × (lo ≤ v.size)
    × (((t ≡ []) × (v.size ≡ 0))
        ⊎ ((u : Bytes) × (w : Bytes) × (n : ℕ) × (t ≡ u ++ w)
            × (v.size ≡ suc n)
            × F u
            × Elements G w n))

module _ {ℓ} {T : Type ℓ} (G : Bytes → Type 0) (next : Rule T) (h : Yields (λ t _. G t) next) where
  abbrev Counted : ℕ → Bytes → ℕ → Type 0
  Counted n t k = (j : ℕ) × (k ≡ n + j) × Elements G t j

  range_loop-Counted :
      (m fuel n : ℕ) (s : Bytes) → Holds (Taken (Counted n) s) (range_loop next m fuel n s)
  unfolding range_loop
  range_loop-Counted m zero n s = ([], refl, (0, omega arith, no_more))
  range_loop-Counted m (suc fuel) n s = step (next s) (h s) (range_loop-Counted m fuel (n + 1))
    where
      step :
          (x : Result (T × Bytes))
          → Holds (Taken (λ t _. G t) s) x
          → ((rest : Bytes)
              → Holds (Taken (Counted (n + 1)) rest) (range_loop next m fuel (n + 1) rest))
          → Holds (Taken (Counted n) s) (elim x [
            | err _ ↦ ok (n, s)
            | ok (_, rest) ↦ elim (leb m n) [
              | true ↦ err mismatch
              | false ↦ range_loop next m fuel (n + 1) rest
            ]
          ])
      step (err why) _ _ = ([], refl, (0, omega arith, no_more))
      step (ok (v, rest)) (t, e, g) more =
          elim (leb m n)
            as (λ b.
              Holds (Taken (Counted n) s)
                (elim b [ true ↦ err mismatch | false ↦ range_loop next m fuel (n + 1) rest ])) [
                  | true ↦ tt
                  | false ↦
                      Holds-map (Taken (Counted (n + 1)) rest) (Taken (Counted n) s)
                        (range_loop next m fuel (n + 1) rest) (more rest)
                        (λ p (u, f, (j, k, r)). (
                          t ++ u,
                          e ∙ ap (◌++◌ t) f ∙ sym (append_assoc t u (p.1)),
                          (suc j, omega (arith, k), element g r),
                        ))
                ]

module _ {ℓ} {T : Type ℓ} (next : Rule T) where
  -- An element takes a character at least.
  abbrev pub Advances : Type 0
  Advances = (s : Bytes) → Holds (λ (p : T × Bytes). length (p.1) < length s) (next s)

  abbrev pub Stops : Bytes → Type ℓ
  Stops s = (why : Error) × (next s ≡ err why)

  -- Where every element takes a character, fuel of the input's size is enough: the loop ends at an
  -- input on which `next` fails, or with more elements than it may take.
  pub range_loop-Stops :
      Advances
      → (m fuel n : ℕ) (s : Bytes) → length s ≤ fuel
      → Holds (λ (p : ℕ × Bytes). Stops (p.1)) (range_loop next m fuel n s)
  unfolding range_loop
  range_loop-Stops adv m zero n s le = ended (next s) refl (adv s)
    where
      ended :
          (x : Result (T × Bytes))
          → next s ≡ x
          → Holds (λ (p : T × Bytes). length (p.1) < length s) x
          → (why : Error) × (next s ≡ err why)
      ended (err why) e _ = (why, e)
      ended (ok (v, rest)) e less = absurd (omega (arith, le, less))
  range_loop-Stops adv m (suc fuel) n s le =
      step (next s) refl (adv s) (range_loop-Stops adv m fuel (n + 1))
    where
      step :
          (x : Result (T × Bytes))
          → next s ≡ x
          → Holds (λ (p : T × Bytes). length (p.1) < length s) x
          → ((rest : Bytes)
              → length rest ≤ fuel
              → Holds (λ (p : ℕ × Bytes). Stops (p.1)) (range_loop next m fuel (n + 1) rest))
          → Holds
              (λ (p : ℕ × Bytes). Stops (p.1))
              (elim x [
                | err _ ↦ ok (n, s)
                | ok (_, rest) ↦ elim (leb m n) [
                  | true ↦ err mismatch
                  | false ↦ range_loop next m fuel (n + 1) rest
                ]
              ])
      step (err why) e _ _ = (why, e)
      step (ok (v, rest)) e less more =
          elim (leb m n)
            as (λ b.
              Holds (λ (p : ℕ × Bytes). Stops (p.1))
                (elim b [ true ↦ err mismatch | false ↦ range_loop next m fuel (n + 1) rest ])) [
                  | true ↦ tt
                  | false ↦ more rest (omega (arith, less, le))
                ]

at_least-Yields :
    (P : Bytes → Range → Type 0) (lo n : ℕ) (t rest : Bytes)
    → (lo ≤ n → P t (record { string = t; size = n }))
    → Holds (Taken P (t ++ rest)) (at_least lo (t ++ rest) (n, rest))
at_least-Yields P lo n t rest h = elim (Bool-cases (ltb n lo)) [
  | inl few ↦ rw few tt
  | inr enough ↦ rw (enough, consumed-append t rest) (t, refl, h (ground (arith, enough)))
]

module _ {ℓ κ} {S : Type ℓ} {T : Type κ} (F G : Bytes → Type 0) (first : Rule S) (next : Rule T)
    (hf : Yields (λ t _. F t) first) (hg : Yields (λ t _. G t) next) where
  -- A range rule takes the string that it returns: nothing, or an element of the first rule and
  -- elements of the other, as many as it returns and `lo` at least.
  pub range_rule-Yields : (lo hi : ℕ) → Yields (IsRange lo F G) (range_rule first next lo hi)
  unfolding range_rule
  range_rule-Yields lo hi s = start (first s) (hf s)
    where
      more :
          (t rest : Bytes)
          → F t
          → s ≡ t ++ rest
          → (x : Result (ℕ × Bytes)) → Holds (Taken (Counted G next hg 1) rest) x
          → Holds
              (Taken (IsRange lo F G) s)
              (elim x [ err why ↦ err why | ok found ↦ at_least lo s found ])
      more t rest f e (err why) _ = tt
      more t rest f e (ok (n, end)) (u, e1, (j, k, g)) =
          let whole : s ≡ (t ++ u) ++ end = e ∙ ap (◌++◌ t) e1 ∙ sym (append_assoc t u end) in
          rw whole (
            at_least-Yields (IsRange lo F G) lo n (t ++ u) end
              (λ le. (refl, le, inr (t, u, j, refl, omega (arith, k), f, g))))

      start :
          (x : Result (S × Bytes))
          → Holds (Taken (λ t _. F t) s) x
          → Holds (Taken (IsRange lo F G) s) (elim x [
            | err _ ↦ at_least lo s (0, s)
            | ok (_, rest) ↦ elim (range_loop next hi (length s) 1 rest) [
              | err why ↦ err why
              | ok found ↦ at_least lo s found
            ]
          ])
      start (err why) _ =
          at_least-Yields (IsRange lo F G) lo 0 [] s (λ le. (refl, le, inl (refl, refl)))
      start (ok (v, rest)) (t, e, f) =
          more t rest f e (range_loop next hi (length s) 1 rest)
            (range_loop-Counted G next hg hi (length s) 1 rest)
