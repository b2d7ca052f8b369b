-- ===== src/Range/Ends.antt =====
-- The fuel of a range rule is enough.
use boost_url.Base.{
  ℕ, zero, suc, ◌+◌, ◌≤◌, ◌<◌, ◌≡◌, refl, ap, ◌⊎◌, inl, inr, true, false, arith, ltb, leb, Bytes,
  ge→ltb, length, length-append, Holds, Holds-map, Error, Result, mismatch, err, ok,
}
use boost_url.DotSegments.{up}
use boost_url.Grammar.{Rule, consumed}
use boost_url.Grammar.Yields.{Taken, Yields}
use boost_url.Range.{range_loop, at_least, range_rule, Range}
use boost_url.Range.Laws.{Advances, Stops}

-- A rule whose texts are not empty advances.
pub Yields-Advances {ℓ} :
    {T : Type ℓ} (G : Bytes → Type 0) (next : Rule T)
    → Yields (λ t _. G t) next
    → ((t : Bytes) → G t → 0 < length t)
    → Advances next
Yields-Advances {T = T} G next h k s =
    Holds-map (Taken (λ t _. G t) s) (λ (p : T × Bytes). length (p.1) < length s) (next s) (h s)
      (λ p (t, e, g). omega (arith, ap length e, length-append t (p.1), k t g))

pub Yields-shorter {ℓ} :
    {T : Type ℓ} (P : Bytes → T → Type 0) (r : Rule T)
    → Yields P r
    → (s : Bytes) → Holds (λ (p : T × Bytes). length (p.1) ≤ length s) (r s)
Yields-shorter {T = T} P r h s =
    Holds-map (Taken P s) (λ (p : T × Bytes). length (p.1) ≤ length s) (r s) (h s)
      (λ p (t, e, g). omega (arith, ap length e, length-append t (p.1)))

module _ {ℓ} {T : Type ℓ} (next : Rule T) (adv : Advances next) (hi : ℕ) where
  abbrev Finishes : ℕ → Result (ℕ × Bytes) → Type ℓ
  Finishes n r = (k : ℕ) × (rest : Bytes) × (r ≡ ok (k, rest)) × (n ≤ k) × Stops next rest

  -- Within the limit, the loop succeeds.
  range_loop-succeeds :
      (fuel n : ℕ) (s : Bytes)
      → length s ≤ fuel
      → n + length s ≤ hi
      → (k : ℕ) × (rest : Bytes) × (range_loop next hi fuel n s ≡ ok (k, rest))
        × (n ≤ k)
        × Stops next rest
  unfolding range_loop
  range_loop-succeeds zero n s le short_of = ended (next s) refl (adv s)
    where
      ended :
          (x : Result (T × Bytes))
          → next s ≡ x
          → Holds (λ (p : T × Bytes). length (p.1) < length s) x
          → Finishes n (ok (n, s))
      ended (err why) e _ = (n, s, refl, omega arith, (why, e))
      ended (ok (v, rest)) e less = absurd (omega (arith, le, less))
  range_loop-succeeds (suc fuel) n s le short_of =
      step (next s) refl (adv s) (range_loop-succeeds fuel (n + 1))
    where
      step :
          (x : Result (T × Bytes))
          → next s ≡ x
          → Holds (λ (p : T × Bytes). length (p.1) < length s) x
          → ((rest : Bytes)
              → length rest ≤ fuel
              → n + 1 + length rest ≤ hi
              → Finishes (n + 1) (range_loop next hi fuel (n + 1) rest))
          → Finishes n (elim x [
            | err _ ↦ ok (n, s)
            | ok (_, rest) ↦ elim (leb hi n) [
              | true ↦ err mismatch
              | false ↦ range_loop next hi fuel (n + 1) rest
            ]
          ])
      step (err why) e _ _ = (n, s, refl, omega arith, (why, e))
      step (ok (v, rest)) e less more =
          let (k, end, f, up, stops) =
            more rest (omega (arith, less, le)) (omega (arith, less, short_of)) in
          let below : n < hi = omega (arith, less, short_of) in
          let under : leb hi n ≡ false = ground (arith, below) in
          rw (under, f) (k, end, refl, omega (arith, up), stops)

-- What a range rule comes to: the first element cannot be read, and the result is as for no element; or
-- it can, and the rule succeeds, with one element at least, at an input on which no further element can be read.
abbrev pub Outcome {ℓ κ} :
    {S : Type ℓ} {T : Type κ}
    → Rule S
    → Rule T
    → Result (Range × Bytes)
    → Result (Range × Bytes)
    → Bytes
    → Type (ℓ ⊔ κ)
Outcome {S = S} first next empty_read r s =
    ((why : Error) × (first s ≡ err why) × (r ≡ empty_read))
    ⊎ ((q : S × Bytes) × (first s ≡ ok q)
        × ((p : Range × Bytes) × (r ≡ ok p) × (1 ≤ p.0.size) × Stops next (p.1)))

module _ {ℓ κ} {S : Type ℓ} {T : Type κ} (first : Rule S) (next : Rule T) (adv : Advances next)
    (short : (s : Bytes) → Holds (λ (p : S × Bytes). length (p.1) ≤ length s) (first s)) where
  pub range_rule-Outcome :
      (lo hi : ℕ) (s : Bytes)
      → lo ≤ 1
      → length s < hi
      → Outcome first next (at_least lo s (0, s)) (range_rule first next lo hi s) s
  unfolding range_rule
  range_rule-Outcome lo hi s one short_of = start (first s) refl (short s)
    where
      start :
          (x : Result (S × Bytes))
          → first s ≡ x
          → Holds (λ (p : S × Bytes). length (p.1) ≤ length s) x
          → Outcome first next
              (at_least lo s (0, s))
              (elim x [
                | err _ ↦ at_least lo s (0, s)
                | ok (_, rest) ↦ elim (range_loop next hi (length s) 1 rest) [
                  | err why ↦ err why
                  | ok found ↦ at_least lo s found
                ]
              ])
              s
      start (err why) e _ = inl (why, e, refl)
      start (ok (v, rest)) e le =
          let (k, end, f, up, stops) =
            range_loop-succeeds next adv hi (length s) 1 rest le (omega (arith, le, short_of)) in
          let enough : ltb k lo ≡ false = ge→ltb (omega (arith, up, one)) in
          rw (f, enough)
            (inr (
              (v, rest),
              e,
              ((record { string = consumed s end; size = k }, end), refl, up, stops),
            ))
