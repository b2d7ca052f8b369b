-- ===== src/Url/Apply/Laid.antt =====
-- How the table grows part by part.
use boost_url.Base.{
  ℕ, zero, suc, ◌+◌, ◌≤◌, ◌<◌, ◌≡◌, refl, sym, ap, ◌∙◌, inl, inr, List, [], ◌∷◌, ◌++◌, append_assoc,
  append-nil, arith, ◌==◌, Bool-cases, Bytes, length, take, length-append,
}
use boost_url.Base.Slices.{take-left, take-all}
use boost_url.Url.{id_end, pos_mod, max_size, offset, len, adjust, set_size, Url}
use native.Mathlib.Decide.{dec_le}

abbrev pub concat : List Bytes → Bytes
concat [] = []
concat (t ∷ ts) = t ++ concat ts

-- The table has the sizes of the texts `ts`, for the first parts, and the other parts are empty.
abbrev pub Laid : Url → List Bytes → Type 0
Laid u ts = (i : ℕ) → i ≤ id_end → offset u i ≡ length (concat (take i ts))

pub concat-snoc : (ts : List Bytes) (t : Bytes) → concat (ts ++ t ∷ []) ≡ concat ts ++ t
concat-snoc [] t = append-nil t
concat-snoc (x ∷ ts) t = ap (◌++◌ x) (concat-snoc ts t) ∙ sym (append_assoc x (concat ts) t)

take-snoc_left :
    (i : ℕ) (ts : List Bytes) (t : Bytes) → i ≤ length ts → take i (ts ++ t ∷ []) ≡ take i ts
take-snoc_left i ts t h = take-left i ts (t ∷ []) h

take-snoc_right :
    (i : ℕ) (ts : List Bytes) (t : Bytes) → length ts < i → take i (ts ++ t ∷ []) ≡ ts ++ t ∷ []
take-snoc_right i ts t h = take-all i (ts ++ t ∷ []) (omega (arith, length-append ts (t ∷ [])))

-- Every later offset is the size of what was laid.
pub Laid-end :
    (u : Url) (ts : List Bytes)
    → Laid u ts
    → (i : ℕ) → length ts ≤ i
    → i ≤ id_end
    → offset u i ≡ length (concat ts)
Laid-end u ts laid i h k = laid i k ∙ ap (λ l. length (concat l)) (take-all i ts h)

set_size_before :
    (u : Url) (id n i : ℕ) → suc i ≤ id → offset (set_size id n u) (suc i) ≡ offset u (suc i)
unfolding set_size adjust len
set_size_before u id n i h = ground arith

set_size_behind :
    (u : Url) (id n i : ℕ)
    → id < suc i
    → suc i ≤ id_end
    → len u id ≡ 0
    → offset u (suc i) + n < pos_mod
    → offset (set_size id n u) (suc i) ≡ offset u (suc i) + n
unfolding set_size adjust
set_size_behind u id n i h k e small = rw e (ground arith)

len_zero :
    (u : Url) (id : ℕ) → offset u (id + 1) ≡ offset u id → offset u id < pos_mod → len u id ≡ 0
unfolding len
len_zero u id e h = elim (Bool-cases (id == id_end)) [
  | inl last ↦ rw last
  | inr other ↦ rw (other, e) (omega (arith, h))
]

-- The next part gets its size.
pub set_size-Laid :
    (u : Url) (ts : List Bytes) (t : Bytes) (id n : ℕ)
    → Laid u ts
    → length ts ≡ id
    → id < id_end
    → n ≡ length t
    → length (concat ts) + length t ≤ max_size
    → Laid (set_size id n u) (ts ++ t ∷ [])
set_size-Laid u ts t id n laid e lt m fit zero le = refl
set_size-Laid u ts t id n laid e lt m fit (suc i) le = elim (dec_le (suc i) id) [
  | yes before ↦
      set_size_before u id n i before
      ∙ laid (suc i) le
      ∙ ap (λ l. length (concat l)) (sym (take-snoc_left (suc i) ts t (omega (arith, e))))
  | no behind ↦
      let here = Laid-end u ts laid id (omega (arith, e)) (omega arith) in
      let next = Laid-end u ts laid (id + 1) (omega (arith, e)) (omega arith) in
      let there = Laid-end u ts laid (suc i) (omega (arith, e)) le in
      set_size_behind u id n i (omega arith) le
        (len_zero u id (next ∙ sym here) (omega (arith, here, fit))) (omega (arith, there, fit, m))
      ∙ omega (
        arith,
        there,
        m,
        length-append (concat ts) t,
        ap length (concat-snoc ts t),
        ap (λ l. length (concat l)) (take-snoc_right (suc i) ts t (omega (arith, e))),
      )
]

-- A part stays empty.
pub empty-Laid : (u : Url) (ts : List Bytes) → Laid u ts → Laid u (ts ++ [] ∷ [])
empty-Laid u ts laid i le = elim (dec_le i (length ts)) [
  | yes h ↦ laid i le ∙ ap (λ l. length (concat l)) (sym (take-snoc_left i ts [] h))
  | no h ↦
      Laid-end u ts laid i (omega arith) le
      ∙ ap length (sym (concat-snoc ts [] ∙ append-nil (concat ts)))
      ∙ ap (λ l. length (concat l)) (sym (take-snoc_right i ts [] (omega arith)))
]

-- The sizes of the texts together.
abbrev pub total : List Bytes → ℕ
total [] = 0
total (t ∷ ts) = length t + total ts

pub length-concat : (ts : List Bytes) → length (concat ts) ≡ total ts
length-concat [] = refl
length-concat (t ∷ ts) = omega (arith, length-append t (concat ts), length-concat ts)

pub lay :
    (u : Url) (ts : List Bytes) (t : Bytes) (n : ℕ)
    → Laid u ts
    → length ts < id_end
    → n ≡ length t
    → total ts + length t ≤ max_size
    → Laid (set_size (length ts) n u) (ts ++ t ∷ [])
lay u ts t n laid lt e fit =
    set_size-Laid u ts t (length ts) n laid refl lt e (omega (arith, fit, length-concat ts))
