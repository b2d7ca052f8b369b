-- ===== src/Url/Apply/Parts.antt =====
-- What a laid table says of the parts.
use boost_url.Base.{
  ℕ, zero, suc, ◌+◌, ◌≤◌, ◌<◌, ◌≡◌, refl, sym, ap, ◌∙◌, false, List, [], ◌∷◌, ◌++◌, append_assoc,
  arith, ◌==◌, Bytes, length, take, length-append, take-append,
}
use boost_url.Base.Slices.{slice, slice-right}
use boost_url.Url.{id_end, max_size, offset, len, get, Url}
use boost_url.Url.Apply.Laid.{concat, Laid, concat-snoc, Laid-end}
use boost_url.Url.Frame.{IsValid}

concat-append : (ts us : List Bytes) → concat (ts ++ us) ≡ concat ts ++ concat us
concat-append [] us = refl
concat-append (t ∷ ts) us =
    ap (◌++◌ t) (concat-append ts us) ∙ sym (append_assoc t (concat ts) (concat us))

concat-take_le :
    (i j : ℕ) (ts : List Bytes) → i ≤ j → length (concat (take i ts)) ≤ length (concat (take j ts))
concat-take_le zero j ts h = omega arith
concat-take_le (suc i) zero ts h = absurd (omega arith)
concat-take_le (suc i) (suc j) [] h = omega arith
concat-take_le (suc i) (suc j) (t ∷ ts) h = omega (
  arith,
  concat-take_le i j ts (omega arith),
  length-append t (concat (take i ts)),
  length-append t (concat (take j ts)),
)

module _ (u : Url) (xs : List Bytes) (t : Bytes) (ys : List Bytes) (i : ℕ)
    (laid : Laid u (xs ++ t ∷ ys)) (at : length xs ≡ i) (lt : i < id_end) where
  pub Laid-here : offset u i ≡ length (concat xs)
  Laid-here =
      laid i (omega arith)
      ∙ ap (λ k. length (concat (take k (xs ++ t ∷ ys)))) (sym at)
      ∙ ap (λ l. length (concat l)) (take-append xs (t ∷ ys))

  Laid-next : offset u (i + 1) ≡ length (concat xs) + length t
  Laid-next =
      let one : xs ++ t ∷ ys ≡ (xs ++ t ∷ []) ++ ys = sym (append_assoc xs (t ∷ []) ys) in
      let k : i + 1 ≡ length (xs ++ t ∷ []) = omega (arith, length-append xs (t ∷ []), at) in
      laid (i + 1) (omega arith)
      ∙ ap (λ l. length (concat (take (i + 1) l))) one
      ∙ ap (λ n. length (concat (take n ((xs ++ t ∷ []) ++ ys)))) k
      ∙ ap (λ l. length (concat l)) (take-append (xs ++ t ∷ []) ys)
      ∙ ap length (concat-snoc xs t)
      ∙ length-append (concat xs) t

  -- Each part has the size of its text,
  pub Laid-len : length (concat (xs ++ t ∷ ys)) ≤ max_size → len u i ≡ length t
  unfolding len
  Laid-len small =
      let inside : (i == id_end) ≡ false = ground arith in
      let whole = ap length (concat-append xs (t ∷ ys)) in
      rw inside (
        omega (
          arith,
          Laid-here,
          Laid-next,
          small,
          whole,
          length-append (concat xs) (concat (t ∷ ys)),
          length-append t (concat ys),
        ))

  -- and where the characters are the texts, its characters are its text.
  pub Laid-get :
      length (concat (xs ++ t ∷ ys)) ≤ max_size → u.chars ≡ concat (xs ++ t ∷ ys) → get u i ≡ t
  unfolding get
  Laid-get small chars =
      ap (λ n. slice (offset u i) n u.chars) (Laid-len small)
      ∙ ap (slice (offset u i) (length t)) (chars ∙ concat-append xs (t ∷ ys))
      ∙ slice-right (offset u i) (length t) 0 (concat xs) (t ++ concat ys)
          (omega (arith, Laid-here))
      ∙ take-append t (concat ys)

-- A laid table of 8 texts is valid for the characters of the texts.
pub Laid-IsValid :
    (u : Url) (ts : List Bytes)
    → Laid u ts
    → length ts ≡ id_end
    → length (concat ts) ≤ max_size
    → u.chars ≡ concat ts
    → IsValid u
Laid-IsValid u ts laid all small chars =
    let total = Laid-end u ts laid id_end (omega (arith, all)) (omega arith) in
    record {
      ascend = λ i j h k. omega (arith, laid i (omega arith), laid j k, concat-take_le i j ts h);
      full = total ∙ ap length (sym chars);
      small = omega (arith, total, small);
    }
