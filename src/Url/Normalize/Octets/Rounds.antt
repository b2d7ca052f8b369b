-- ===== src/Url/Normalize/Octets/Rounds.antt =====
-- The rounds of the loop of `normalize_octets_impl`, and its end.
use boost_url.Base.{
  ℕ, zero, suc, ◌+◌, ◌≡◌, refl, sym, ap, ◌∙◌, ◌⊎◌, inl, inr, Bool, true, false, some, [], ◌∷◌, ◌++◌,
  append_assoc, append-nil, arith, ◌==◌, ==_iff, Bytes, length, drop, length-append,
}
use boost_url.Base.Slices.{write, take-left, take-all, write-replace}
use boost_url.Chars.{CharSet, to_upper}
use boost_url.Pct.Decode.{decode_hex, read_escape, read_one, decode_loop, pct_decode_unchecked}
use boost_url.Url.Normalize.{octet_escape, octet_step, octets_loop}
use boost_url.Url.Normalize.Octets.{normal, Leaves, at_rest, moved-step}
use boost_url.Url.Userinfo.{decode_opts}
use mathlib.Core.Path.{ap₂, subst}

module _ (cs : CharSet) where
  loop_end :
      (fuel : ℕ) (part : Bytes) (it dest : ℕ)
      → drop it part ≡ []
      → octets_loop fuel cs part it dest ≡ (part, it, dest)
  unfolding octets_loop octet_step
  loop_end zero part it dest e = refl
  loop_end (suc fuel) part it dest e = rw (octets_loop, e) refl

  pub ends :
      (fuel : ℕ) (pre mid : Bytes)
      → Leaves cs fuel (pre ++ (mid ++ [])) (length pre + length mid) (length pre) (pre ++ [])
  ends fuel pre mid =
      let part = pre ++ (mid ++ []) in
      let len_part : length pre + length mid ≡ length part =
        omega (arith, length-append pre (mid ++ []), length-append mid []) in
      let len_pre : length pre ≡ length (pre ++ []) = omega (arith, length-append pre []) in
      (
        part,
        loop_end fuel part (length pre + length mid) (length pre) (at_rest cs pre mid [])
            ∙ ap₂ (λ i n. (part, i, n)) len_part len_pre,
        refl,
        take-left (length (pre ++ [])) pre (mid ++ []) (omega (arith, len_pre))
            ∙ take-all (length (pre ++ [])) pre (omega (arith, len_pre))
            ∙ sym (append-nil pre),
      )

  plain_round :
      (c it dest : ℕ) (s part : Bytes)
      → (c == b'%') ≡ false
      → octet_step cs (c ∷ s) part it dest ≡ some (write part dest (c ∷ []), it + 1, dest + 1)
  unfolding octet_step
  plain_round c it dest [] part other = rw other refl
  plain_round c it dest (d ∷ []) part other = rw other refl
  plain_round c it dest (d ∷ e ∷ s) part other = rw other refl

  normal-plain : (c : ℕ) (s : Bytes) → (c == b'%') ≡ false → normal cs (c ∷ s) ≡ c ∷ normal cs s
  unfolding normal
  normal-plain c [] other = refl
  normal-plain c (d ∷ []) other = refl
  normal-plain c (d ∷ e ∷ s) other = rw (normal, other) refl

  decoded_byte :
      (d e : ℕ)
      → (pct_decode_unchecked 1 (b'%' ∷ d ∷ e ∷ []) decode_opts).bytes ≡ decode_hex d e ∷ []
  unfolding pct_decode_unchecked decode_loop read_one read_escape
  decoded_byte d e = refl

  pub escape_decoded :
      (c d e it dest : ℕ) (s part : Bytes)
      → (c == b'%') ≡ true
      → cs (decode_hex d e) ≡ true
      → octet_step cs (c ∷ d ∷ e ∷ s) part it dest
        ≡ some (write part dest (decode_hex d e ∷ []), it + 3, dest + 1)
  unfolding octet_step octet_escape
  escape_decoded c d e it dest s part pct inside =
      rw (pct, octet_escape, decoded_byte d e, inside) refl

  escape_kept :
      (c d e it dest : ℕ) (s part : Bytes)
      → (c == b'%') ≡ true
      → cs (decode_hex d e) ≡ false
      → octet_step cs (c ∷ d ∷ e ∷ s) part it dest
        ≡ some (write part (it + 1) (to_upper d ∷ to_upper e ∷ []), it + 3, dest + 3)
  unfolding octet_step octet_escape
  escape_kept c d e it dest s part pct outside =
      rw (pct, octet_escape, decoded_byte d e, outside) refl

  pub normal-decoded :
      (c d e : ℕ) (s : Bytes)
      → (c == b'%') ≡ true
      → cs (decode_hex d e) ≡ true
      → normal cs (c ∷ d ∷ e ∷ s) ≡ decode_hex d e ∷ normal cs s
  unfolding normal
  normal-decoded c d e s pct inside = rw (normal, pct, inside) refl

  pub normal-kept :
      (c d e : ℕ) (s : Bytes)
      → (c == b'%') ≡ true
      → cs (decode_hex d e) ≡ false
      → normal cs (c ∷ d ∷ e ∷ s) ≡ b'%' ∷ to_upper d ∷ to_upper e ∷ normal cs s
  unfolding normal
  normal-kept c d e s pct outside = rw (normal, pct, outside) refl

  -- An escape that stays, where nothing was decoded in front of it.
  pub kept-step :
      (fuel c d e : ℕ) (pre s rest : Bytes)
      → (c == b'%') ≡ true
      → cs (decode_hex d e) ≡ false
      → Leaves cs fuel
          ((pre ++ (b'%' ∷ to_upper d ∷ to_upper e ∷ [])) ++ s)
          (length (pre ++ (b'%' ∷ to_upper d ∷ to_upper e ∷ [])) + 0)
          (length (pre ++ (b'%' ∷ to_upper d ∷ to_upper e ∷ [])))
          ((pre ++ (b'%' ∷ to_upper d ∷ to_upper e ∷ [])) ++ rest)
      → Leaves cs
          (suc fuel)
          (pre ++ (c ∷ d ∷ e ∷ s))
          (length pre + 0)
          (length pre)
          (pre ++ (b'%' ∷ to_upper d ∷ to_upper e ∷ rest))
  kept-step fuel c d e pre s rest pct outside leaves =
      moved-step cs fuel pre [] (c ∷ d ∷ e ∷ []) (b'%' ∷ to_upper d ∷ to_upper e ∷ []) s rest
        (omega arith)
        (escape_kept c d e (length pre + 0) (length pre) s (pre ++ (c ∷ d ∷ e ∷ s)) pct outside
          ∙ ap (λ b. some (b, length pre + 0 + 3, length pre + 3)) same)
        leaves
    where
      same :
          write (pre ++ (c ∷ d ∷ e ∷ s)) (length pre + 0 + 1) (to_upper d ∷ to_upper e ∷ [])
          ≡ write (pre ++ (c ∷ d ∷ e ∷ s)) (length pre) (b'%' ∷ to_upper d ∷ to_upper e ∷ [])
      same =
          ap (λ l. write l (length pre + 0 + 1) (to_upper d ∷ to_upper e ∷ []))
            (sym (append_assoc pre (c ∷ []) (d ∷ e ∷ s)))
          ∙ write-replace (length pre + 0 + 1) (pre ++ (c ∷ [])) (d ∷ e ∷ []) s
              (to_upper d ∷ to_upper e ∷ []) (omega (arith, length-append pre (c ∷ []))) refl
          ∙ append_assoc pre (c ∷ []) (to_upper d ∷ to_upper e ∷ s)
          ∙ ap (λ x. pre ++ (x ∷ to_upper d ∷ to_upper e ∷ s)) ((==_iff c b'%').0 pct)
          ∙ sym (
              write-replace (length pre) pre (c ∷ d ∷ e ∷ []) s
                (b'%' ∷ to_upper d ∷ to_upper e ∷ []) refl refl)

  pub plain-step :
      (fuel c : ℕ) (pre mid s : Bytes)
      → (c == b'%') ≡ false
      → Leaves cs fuel
          ((pre ++ (c ∷ [])) ++ (drop 1 (mid ++ (c ∷ [])) ++ s))
          (length (pre ++ (c ∷ [])) + length (drop 1 (mid ++ (c ∷ []))))
          (length (pre ++ (c ∷ [])))
          ((pre ++ (c ∷ [])) ++ normal cs s)
      → Leaves cs
          (suc fuel)
          (pre ++ (mid ++ (c ∷ s)))
          (length pre + length mid)
          (length pre)
          (pre ++ normal cs (c ∷ s))
  plain-step fuel c pre mid s other leaves =
      subst
        (λ l.
          Leaves cs (suc fuel) (pre ++ (mid ++ (c ∷ s))) (length pre + length mid) (length pre)
            (pre ++ l))
        (sym (normal-plain c s other))
        (moved-step cs fuel pre mid (c ∷ []) (c ∷ []) s (normal cs s) (omega arith)
          (plain_round c (length pre + length mid) (length pre) s (pre ++ (mid ++ (c ∷ s))) other)
          leaves)

  abbrev pub Behind : Bool → Bytes → Type 0
  Behind moved mid = (moved ≡ true) ⊎ (mid ≡ [])

  pub still :
      (moved : Bool) (c : ℕ) (mid : Bytes)
      → Behind moved mid
      → Behind moved (drop 1 (mid ++ (c ∷ [])))
  still moved c mid m = elim m [
    | inl yes' ↦ inl yes'
    | inr empty ↦ inr (ap (λ l. drop 1 (l ++ (c ∷ []))) empty)
  ]
