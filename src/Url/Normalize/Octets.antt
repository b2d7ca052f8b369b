-- ===== src/Url/Normalize/Octets.antt =====
-- What `normalize_octets_impl` leaves of a part, where its loop does not lose an escape.
pub mod Rounds
pub mod Whole
use boost_url.Base.{
  ℕ, suc, ◌+◌, ◌-◌, ◌≤◌, ◌≡◌, refl, sym, ap, ◌∙◌, Bool, true, false, some, [], ◌∷◌, ◌++◌,
  append_assoc, arith, ◌==◌, if◌then◌else◌, Bytes, length, take, drop, length-append, drop-append,
  take-append-drop, length-take, length-drop,
}
use boost_url.Base.Slices.{write, drop-right, write-replace}
use boost_url.Chars.{CharSet, to_upper}
use boost_url.Pct.Decode.{decode_hex}
use boost_url.Url.Normalize.{octet_step, octets_loop}
use mathlib.Core.Path.{ap₂, subst}

-- The normal form: bytes of the set are decoded, the digits of other escapes are in upper case.
unfoldable pub normal : CharSet → Bytes → Bytes
normal cs [] = []
normal cs (c ∷ []) = c ∷ []
normal cs (c ∷ d ∷ []) = c ∷ d ∷ []
normal cs (c ∷ d ∷ e ∷ s) = elim (c == b'%') [
  | true ↦
      (if cs (decode_hex d e) then decode_hex d e ∷ [] else b'%' ∷ to_upper d ∷ to_upper e ∷ [])
      ++ normal cs s
  | false ↦ c ∷ normal cs (d ∷ e ∷ s)
]

-- Every '%' starts an escape of three characters, and none that stays is behind one that is decoded;
-- `moved` says whether one was decoded in front.
abbrev pub Ordered : CharSet → Bool → Bytes → Type 0
Ordered cs moved [] = Unit
Ordered cs moved (c ∷ []) = (c == b'%') ≡ false
Ordered cs moved (c ∷ d ∷ []) = ((c == b'%') ≡ false) × ((d == b'%') ≡ false)
Ordered cs moved (c ∷ d ∷ e ∷ s) = elim (c == b'%') [
  | true ↦ elim (cs (decode_hex d e)) [
    | true ↦ Ordered cs true s
    | false ↦ (moved ≡ false) × Ordered cs false s
  ]
  | false ↦ Ordered cs moved (d ∷ e ∷ s)
]

module _ (cs : CharSet) where
  -- The loop ends at the end of the part, with `text` in front of `dest`.
  abbrev pub Leaves : ℕ → Bytes → ℕ → ℕ → Bytes → Type 0
  Leaves fuel part it dest text =
      (after : Bytes) × (octets_loop fuel cs part it dest ≡ (after, length part, length text))
      × (length after ≡ length part)
      × (take (length text) after ≡ text)

  Leaves-eq :
      {part part' text text' : Bytes} {it it' dest dest' : ℕ} (fuel : ℕ)
      → part ≡ part'
      → it ≡ it'
      → dest ≡ dest'
      → text ≡ text'
      → Leaves fuel part it dest text
      → Leaves fuel part' it' dest' text'
  Leaves-eq {part' = part'} {text = text} {it = it} {it' = it'} {dest = dest} {dest' = dest'} fuel e
        f g h l =
      subst (Leaves fuel part' it' dest') h (
        subst (λ d. Leaves fuel part' it' d text) g
          (subst (λ i. Leaves fuel part' i dest text) f
            (subst (λ p. Leaves fuel p it dest text) e l)))

  -- Behind a round that does not end the loop.
  Leaves-step :
      (fuel : ℕ) (part next text : Bytes) (it it' dest dest' : ℕ)
      → octet_step cs (drop it part) part it dest ≡ some (next, it', dest')
      → length next ≡ length part
      → Leaves fuel next it' dest' text
      → Leaves (suc fuel) part it dest text
  unfolding octets_loop
  Leaves-step fuel part next text it it' dest dest' e len_next (after, f, len_after, front) = (
    after,
    rw (octets_loop, e) (f ∙ ap (λ n. (after, n, length text)) len_next),
    len_after ∙ len_next,
    front,
  )

  pub at_rest : (pre mid s : Bytes) → drop (length pre + length mid) (pre ++ (mid ++ s)) ≡ s
  at_rest pre mid s =
      drop-right (length pre + length mid) (length mid) pre (mid ++ s) refl ∙ drop-append mid s

  -- `t` is written at `dest`, where `front` was read.
  buffer-moved :
      (pre mid front t s : Bytes)
      → length t ≤ length mid + length front
      → write (pre ++ (mid ++ (front ++ s))) (length pre) t
        ≡ (pre ++ t) ++ (drop (length t) (mid ++ front) ++ s)
  buffer-moved pre mid front t s le =
      let n = length t in
      let len_next = length-append mid front in
      let cut_at : mid ++ (front ++ s) ≡ take n (mid ++ front) ++ (drop n (mid ++ front) ++ s) =
        sym (append_assoc mid front s)
        ∙ ap (λ l. l ++ s) (sym (take-append-drop n (mid ++ front)))
        ∙ append_assoc (take n (mid ++ front)) (drop n (mid ++ front)) s in
      ap (λ l. write (pre ++ l) (length pre) t) cut_at
      ∙ write-replace (length pre) pre (take n (mid ++ front)) (drop n (mid ++ front) ++ s) t refl
          (sym (length-take n (mid ++ front) (omega (arith, le, len_next))))
      ∙ sym (append_assoc pre t (drop n (mid ++ front) ++ s))

  -- A round that writes `t` for `front`.
  pub moved-step :
      (fuel : ℕ) (pre mid front t s rest : Bytes)
      → length t ≤ length mid + length front
      → octet_step cs
          (front ++ s)
          (pre ++ (mid ++ (front ++ s)))
          (length pre + length mid)
          (length pre)
        ≡ some (
          write (pre ++ (mid ++ (front ++ s))) (length pre) t,
          length pre + length mid + length front,
          length pre + length t,
        )
      → Leaves fuel
          ((pre ++ t) ++ (drop (length t) (mid ++ front) ++ s))
          (length (pre ++ t) + length (drop (length t) (mid ++ front)))
          (length (pre ++ t))
          ((pre ++ t) ++ rest)
      → Leaves
          (suc fuel)
          (pre ++ (mid ++ (front ++ s)))
          (length pre + length mid)
          (length pre)
          (pre ++ (t ++ rest))
  moved-step fuel pre mid front t s rest le e leaves =
      let part = pre ++ (mid ++ (front ++ s)) in
      let left = drop (length t) (mid ++ front) in
      let buffer = buffer-moved pre mid front t s le in
      let len_t = length-append pre t in
      let len_left : length left ≡ length mid + length front - length t =
        length-drop (length t) (mid ++ front) ∙ ap (λ n. n - length t) (length-append mid front) in
      Leaves-step fuel part (write part (length pre) t) (pre ++ (t ++ rest))
        (length pre + length mid) (length pre + length mid + length front) (length pre)
        (length pre + length t)
        (ap (λ l. octet_step cs l part (length pre + length mid) (length pre))
            (at_rest pre mid (front ++ s))
          ∙ e)
        (ap length buffer
          ∙ omega (
            arith,
            length-append (pre ++ t) (left ++ s),
            length-append left s,
            len_t,
            len_left,
            length-append pre (mid ++ (front ++ s)),
            length-append mid (front ++ s),
            length-append front s,
            le,
          ))
        (Leaves-eq fuel (sym buffer) (omega (arith, len_t, len_left, le)) len_t
          (append_assoc pre t rest) leaves)
