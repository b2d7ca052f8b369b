-- ===== src/Url/Normalize/Octets/Whole.antt =====
-- The whole loop of `normalize_octets_impl`, and what it does to the parts of a URL.
use boost_url.Base.{
  ℕ, zero, suc, ◌+◌, ◌-◌, ◌≤◌, ◌<◌, ◌≡◌, refl, sym, ap, ◌∙◌, inl, inr, Bool, true, false, [], ◌∷◌,
  ◌++◌, arith, leb, ◌==◌, Bool-cases, ==_iff, leb→le, Bytes, leb→gt, length, take, drop,
  length-take,
}
use boost_url.Base.Slices.{slice, slice-take, take-all}
use boost_url.Chars.{CharSet, to_upper}
use boost_url.Pct.Decode.{decode_hex}
use boost_url.Url.{id_end, offset, len, get, put, Url}
use boost_url.Url.Frame.{shrink_range-Spliced, IsValid}
use boost_url.Url.Normalize.{chars_of_part, octets_loop, normalize_octets_impl}
use boost_url.Url.Normalize.Laws.{overwritten}
use boost_url.Url.Normalize.Octets.{normal, Ordered, Leaves, moved-step}
use boost_url.Url.Normalize.Octets.Rounds.{
  ends, escape_decoded, normal-decoded, normal-kept, kept-step, plain-step, Behind, still,
}
use boost_url.Url.Parts.{Spliced-Edited, len-eq, get-eq, length-get, Edited}
use boost_url.Url.Replace.{Replaced, Edited-Replaced}
use boost_url.Url.Resize.{shrink_range, shrink_part}
use mathlib.Core.Path.{subst}

module _ (cs : CharSet) where
  -- The loop with `s` in front of it, `pre` written and `mid` left behind.
  octets_loop-Leaves :
      (fuel : ℕ) (pre mid s : Bytes) (moved : Bool)
      → length s ≤ fuel
      → Ordered cs moved s
      → Behind cs moved mid
      → Leaves cs fuel
          (pre ++ (mid ++ s))
          (length pre + length mid)
          (length pre)
          (pre ++ normal cs s)
  octets_loop-Leaves fuel pre mid [] moved le order m = unfold normal in ends cs fuel pre mid
  octets_loop-Leaves zero pre mid (c ∷ s) moved le order m = absurd (omega (arith, le))
  octets_loop-Leaves (suc fuel) pre mid (c ∷ []) moved le order m =
      plain-step cs fuel c pre mid [] order (
        octets_loop-Leaves fuel (pre ++ (c ∷ [])) (drop 1 (mid ++ (c ∷ []))) [] moved (omega arith)
          tt (still cs moved c mid m))
  octets_loop-Leaves (suc fuel) pre mid (c ∷ d ∷ []) moved le (first, second) m =
      plain-step cs fuel c pre mid (d ∷ []) first (
        octets_loop-Leaves fuel (pre ++ (c ∷ [])) (drop 1 (mid ++ (c ∷ []))) (d ∷ []) moved
          (omega (arith, le)) second (still cs moved c mid m))
  octets_loop-Leaves (suc fuel) pre mid (c ∷ d ∷ e ∷ s) moved le order m =
      elim (Bool-cases (c == b'%')) [
        | inl pct ↦ elim (Bool-cases (cs (decode_hex d e))) [
          | inl inside ↦
              let b = decode_hex d e in
              let left = drop 1 (mid ++ (c ∷ d ∷ e ∷ [])) in
              subst
                (λ l.
                  Leaves cs (suc fuel) (pre ++ (mid ++ (c ∷ d ∷ e ∷ s))) (length pre + length mid)
                    (length pre) (pre ++ l))
                (sym (normal-decoded cs c d e s pct inside))
                (moved-step cs fuel pre mid (c ∷ d ∷ e ∷ []) (b ∷ []) s (normal cs s) (omega arith)
                  (escape_decoded cs c d e (length pre + length mid) (length pre) s
                    (pre ++ (mid ++ (c ∷ d ∷ e ∷ s))) pct inside)
                  (octets_loop-Leaves fuel (pre ++ (b ∷ [])) left s true (omega (arith, le))
                    (order_decoded pct inside order) (inl refl)))
          | inr outside ↦
              let t = b'%' ∷ to_upper d ∷ to_upper e ∷ [] in
              let (unmoved, rest) = order_kept pct outside order in
              let empty : mid ≡ [] = elim m [
                | inl yes' ↦ absurd (true_false (sym yes' ∙ unmoved))
                | inr none' ↦ none'
              ] in
              subst
                (λ l.
                  Leaves cs (suc fuel) (pre ++ (mid ++ (c ∷ d ∷ e ∷ s))) (length pre + length mid)
                    (length pre) (pre ++ l))
                (sym (normal-kept cs c d e s pct outside))
                (subst
                  (λ n.
                    Leaves cs (suc fuel) (pre ++ (n ++ (c ∷ d ∷ e ∷ s))) (length pre + length n)
                      (length pre) (pre ++ (t ++ normal cs s)))
                  (sym empty)
                  (kept-step cs fuel c d e pre s (normal cs s) pct outside (
                    octets_loop-Leaves fuel (pre ++ t) [] s false (omega (arith, le)) rest
                      (inr refl))))
        ]
        | inr other ↦ plain-step cs fuel c pre mid (d ∷ e ∷ s) other (
            octets_loop-Leaves fuel (pre ++ (c ∷ [])) (drop 1 (mid ++ (c ∷ []))) (d ∷ e ∷ s) moved
              (omega (arith, le)) (order_plain other order) (still cs moved c mid m))
      ]
    where
      true_false : true ≡ false → ⊥
      true_false e = cc

      order_plain :
          (c == b'%') ≡ false → Ordered cs moved (c ∷ d ∷ e ∷ s) → Ordered cs moved (d ∷ e ∷ s)
      order_plain other o = rw (Ordered, other) at o

      order_decoded :
          (c == b'%') ≡ true
          → cs (decode_hex d e) ≡ true
          → Ordered cs moved (c ∷ d ∷ e ∷ s)
          → Ordered cs true s
      order_decoded pct inside o = rw (Ordered, pct, inside) at o

      order_kept :
          (c == b'%') ≡ true
          → cs (decode_hex d e) ≡ false
          → Ordered cs moved (c ∷ d ∷ e ∷ s)
          → (moved ≡ false) × Ordered cs false s
      order_kept pct outside o = rw (Ordered, pct, outside) at o

-- A part that is overwritten and then shrunk.
shrunk-Replaced :
    (u v : Url) (id n : ℕ) (after : Bytes)
    → id < id_end
    → Replaced u id after v
    → n ≤ length after
    → Replaced u id (take n after) (shrink_part id n v)
unfolding shrink_part
shrunk-Replaced u v id n after h (valid, here, others) le =
    let o = offset v id in
    let len_part : length (get v id) ≡ offset v (id + 1) - o = length-get valid id h in
    let up = valid.ascend id (id + 1) (omega arith) (omega arith) in
    let fits' : n ≤ offset v (id + 1) - o = omega (arith, ap length here, len_part, le) in
    let front : slice o n v.chars ≡ take n after =
      sym (slice-take 0 n (offset v (id + 1) - o) (drop o v.chars) (omega (arith, fits')))
      ∙ ap (take n) (sym (get-eq valid id h) ∙ here) in
    let edit =
      subst (λ s. Edited v id (id + 1) s (shrink_range id (id + 1) n v)) front
        (Spliced-Edited
          (shrink_range-Spliced valid id (id + 1) n (omega arith) (omega arith) fits')) in
    let (ok_w, text, rest) =
      Edited-Replaced id valid h edit
        (omega (arith, length-take n after le, valid.small, fits', up)) in
    (ok_w, text, λ i ne lt. rest i ne lt ∙ others i ne lt)

-- On a valid table, for a part of whole escapes of which none that stays is behind one that is decoded,
-- `normalize_octets_impl` replaces the part by its normal form: escapes of bytes of the set are decoded,
-- the digits of the others are in upper case. Every other part keeps its characters, and the table stays
-- valid.
pub normalize_octets_impl_lem :
    (u : Url) (id : ℕ) (cs : CharSet)
    → IsValid u
    → id < id_end
    → Ordered cs false (get u id)
    → Replaced u id (normal cs (get u id)) (normalize_octets_impl id cs u)
unfolding normalize_octets_impl
normalize_octets_impl_lem u id cs valid h order =
    let part = chars_of_part id u in
    let same = get-eq valid id h in
    let m = length (normal cs part) in
    let (after, e, len_after, front) =
      octets_loop-Leaves cs (length part) [] [] part false (omega arith)
        (subst (Ordered cs false) same order) (inr refl) in
    let e' : octets_loop (length part) cs part 0 0 ≡ (after, length part, m) = e in
    let len_after' : length after ≡ length part = len_after in
    let front' : take m after ≡ normal cs part = front in
    let over = overwritten u id after valid h len_after' in
    let len_part : len u id ≡ length part =
      len-eq valid id h ∙ sym (length-get valid id h) ∙ ap length same in
    rw same (elim (Bool-cases (leb (length part) m)) [
      | inl whole' ↦
          let all : after ≡ normal cs part =
            sym (take-all m after (omega (arith, leb→le (length part) m whole', len_after')))
            ∙ front' in
          let equal' : (length part == m) ≡ true =
            (==_iff (length part) m).1 (sym len_after' ∙ ap length all) in
          rw (e', equal') (subst (λ t. Replaced u id t (put (offset u id) after u)) all over)
      | inr less ↦
          let lt = leb→gt {a = length part} less in
          let differ : (length part == m) ≡ false = ground (arith, lt) in
          let size_left : len u id - (length part - m) ≡ m = omega (arith, len_part, lt) in
          rw (e', differ, size_left)
            (subst (λ t. Replaced u id t (shrink_part id m (put (offset u id) after u))) front'
              (shrunk-Replaced u (put (offset u id) after u) id m after h over
                (omega (arith, lt, len_after'))))
    ])
