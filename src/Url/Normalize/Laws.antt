-- ===== src/Url/Normalize/Laws.antt =====
-- Lower-casing changes the characters of its part only.
use boost_url.Base.{
  ℕ, zero, suc, ◌+◌, ◌-◌, ◌<◌, ◌≡◌, refl, sym, ap, ◌∙◌, inl, inr, [], ◌∷◌, ◌++◌, map, append-nil,
  arith, ◌==◌, Bool-cases, Bytes, length, take, drop, take-append-drop,
}
use boost_url.Base.Slices.{drop-drop, length-slice}
use boost_url.Chars.{to_lower}
use boost_url.Scheme.{string_to_scheme}
use boost_url.Scheme.Laws.{string_to_scheme-map}
use boost_url.Url.{id_scheme, id_end, offset, get, put, Url}
use boost_url.Url.Frame.{IsValid}
use boost_url.Url.Normalize.{
  chars_of_part, to_lower_impl, decoded_to_lower, decoded_to_lower_impl, normalize_scheme,
}
use boost_url.Url.Parts.{get-eq, Edited-put, Edited}
use boost_url.Url.Replace.{Replaced, Edited-Replaced}
use boost_url.Url.View.{scheme}
use mathlib.Core.Path.{subst}

length-map : (f : ℕ → ℕ) (s : Bytes) → length (map f s) ≡ length s
length-map f [] = refl
length-map f (c ∷ s) = ap suc (length-map f s)

length-decoded_to_lower : (s : Bytes) → length (decoded_to_lower s) ≡ length s
unfolding decoded_to_lower
length-decoded_to_lower [] = refl
length-decoded_to_lower (c ∷ []) = ground arith
length-decoded_to_lower (c ∷ d ∷ []) = elim (Bool-cases (c == b'%')) [
  | inl pct ↦ rw (pct, decoded_to_lower)
  | inr other ↦ rw (other, decoded_to_lower) (ap suc (length-decoded_to_lower (d ∷ [])))
]
length-decoded_to_lower (c ∷ d ∷ e ∷ s) = elim (Bool-cases (c == b'%')) [
  | inl pct ↦ rw (pct, decoded_to_lower) (ap (λ n. suc (suc (suc n))) (length-decoded_to_lower s))
  | inr other ↦ rw (other, decoded_to_lower) (ap suc (length-decoded_to_lower (d ∷ e ∷ s)))
]

-- A URL is itself with a part replaced by its own characters.
self-Edited :
    (u : Url) (id : ℕ) → IsValid u → id < id_end → Edited u id (id + 1) (chars_of_part id u) u
self-Edited u id valid h =
    let o = offset u id in
    let n = offset u (id + 1) - offset u id in
    let up = valid.ascend id (id + 1) (omega arith) (omega arith) in
    let top = valid.ascend (id + 1) id_end (omega arith) (omega arith) in
    let size_part : length (chars_of_part id u) ≡ n =
      length-slice o n u.chars (omega (arith, up, top, valid.full)) in
    record {
      chars_are =
          sym (take-append-drop o u.chars)
          ∙ ap (◌++◌ (take o u.chars)) (sym (take-append-drop n (drop o u.chars)))
          ∙ ap (λ t. take o u.chars ++ (chars_of_part id u ++ t))
              (drop-drop n o u.chars ∙ ap (λ k. drop k u.chars) (omega (arith, up)));
      before = λ i le. refl;
      after = λ i le le'. omega (arith, size_part, up);
    }

pub overwritten :
    (u : Url) (id : ℕ) (t : Bytes)
    → IsValid u
    → id < id_end
    → length t ≡ length (chars_of_part id u)
    → Replaced u id t (put (offset u id) t u)
overwritten u id t valid h size_t =
    let o = offset u id in
    let n = offset u (id + 1) - offset u id in
    let up = valid.ascend id (id + 1) (omega arith) (omega arith) in
    let top = valid.ascend (id + 1) id_end (omega arith) (omega arith) in
    let size_part : length (chars_of_part id u) ≡ n =
      length-slice o n u.chars (omega (arith, up, top, valid.full)) in
    let edit =
      Edited-put o [] (chars_of_part id u) [] t valid (omega arith) (omega arith)
        (self-Edited u id valid h) (sym (append-nil (chars_of_part id u))) (omega arith) size_t in
    Edited-Replaced id valid h (subst (λ s. Edited u id (id + 1) s (put o t u)) (append-nil t) edit)
      (omega (arith, size_t, size_part, up, valid.small))

-- On a valid table `to_lower_impl` of a part replaces its characters by those in lower case;
-- `decoded_to_lower_impl` does so except in escapes; every other part keeps its characters, and the
-- table stays valid.
pub to_lower_impl_lem :
    (u : Url) (id : ℕ)
    → IsValid u
    → id < id_end
    → Replaced u id (map to_lower (get u id)) (to_lower_impl id u)
      × Replaced u id (decoded_to_lower (get u id)) (decoded_to_lower_impl id u)
unfolding to_lower_impl decoded_to_lower_impl
to_lower_impl_lem u id valid h = rw (get-eq valid id h) (
  overwritten u id (map to_lower (chars_of_part id u)) valid h
      (length-map to_lower (chars_of_part id u)),
  overwritten u id (decoded_to_lower (chars_of_part id u)) valid h
      (length-decoded_to_lower (chars_of_part id u)),
)

take-map : (f : ℕ → ℕ) (n : ℕ) (s : Bytes) → take n (map f s) ≡ map f (take n s)
take-map f zero s = refl
take-map f (suc n) [] = refl
take-map f (suc n) (c ∷ s) = ap (◌∷◌ (f c)) (take-map f n s)

-- On a valid table `normalize_scheme` puts the characters of the scheme into lower case and keeps
-- those of every other part; the table stays valid, and `string_to_scheme` of `scheme()` is as
-- before.
normalize_scheme_lem :
    (u : Url)
    → IsValid u
    → Replaced u id_scheme (map to_lower (get u id_scheme)) (normalize_scheme u)
      × (string_to_scheme (scheme (normalize_scheme u)) ≡ string_to_scheme (scheme u))
unfolding normalize_scheme scheme
normalize_scheme_lem u valid =
    let lower = (to_lower_impl_lem u id_scheme valid (omega arith)).0 in
    let g = get u id_scheme in
    (
      lower,
      ap (λ s. string_to_scheme (take (length s - 1) s)) lower.1
          ∙ ap (λ n. string_to_scheme (take (n - 1) (map to_lower g))) (length-map to_lower g)
          ∙ ap string_to_scheme (take-map to_lower (length g - 1) g)
          ∙ string_to_scheme-map (take (length g - 1) g),
    )
