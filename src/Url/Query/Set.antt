-- ===== src/Url/Query/Set.antt =====
-- What `set_query` does to the parts of a URL.
use boost_url.Base.{
  ℕ, suc, ◌+◌, ◌-◌, ◌/◌, ◌%◌, ◌≤◌, ◌≡◌, refl, sym, ap, ◌∙◌, inl, inr, true, false, some, [], ◌∷◌,
  arith, ◌==◌, Bool-cases, ==_iff, Bytes, length, length-append, ok,
}
use boost_url.Chars.{query_chars}
use boost_url.Compare.Laws.{bytes_unchecked-char}
use boost_url.Pct.Decode.{pct_decode_bytes_unchecked}
use boost_url.Pct.Encode.{hex_digit, pct_encode_bytes, encode_one, pct_encode_to_string}
use boost_url.Pct.Exact.{length-encode_all, pct_encode_to_string-exact}
use boost_url.Url.{id_query, id_frag, offset, put, set_decoded, Url}
use boost_url.Url.Fragment.{encode_opts}
use boost_url.Url.Frame.{IsValid}
use boost_url.Url.Iter.{to_sep, plain_iter, measure, copy_loop}
use boost_url.Url.Iter.Measured.{
  encoded, seps, to_sep-IsRest, to_sep-seps, length-to_sep, encoded-to_sep, size-plain,
  measure_loop-plain, copy_loop-plain,
}
use boost_url.Url.Query.{
  first_param, plain_query_iter, measure_all, insert_params, set_query_by, set_query,
}
use boost_url.Url.Query.Laws.{HasParams, edit_params-edited}
use boost_url.Url.Replace.{Fits, Replaced, Edited-Replaced, Replaced-rest}
use boost_url.Url.Resized.{edited, edited-put}
use boost_url.Url.View.{encoded_query}
use mathlib.Core.Path.{ap₂, subst}

abbrev encoded_query_of : Bytes → Bytes
encoded_query_of s = encoded query_chars s

keeps_amp : query_chars b'&' ≡ true
unfolding query_chars
keeps_amp = refl

measure_all-plain :
    (c : ℕ) (s : Bytes)
    → measure_all (length (c ∷ s) + 1) 0 (plain_query_iter (c ∷ s)) true
      ≡ ok (1 + length (encoded_query_of (c ∷ s)), suc (seps b'&' (c ∷ s)), true)
unfolding measure_all measure plain_query_iter first_param plain_iter
measure_all-plain c s =
    let t = c ∷ s in
    let front = (to_sep b'&' t).0 in
    let rest = (to_sep b'&' t).1 in
    let loop =
      measure_loop-plain query_chars query_chars b'&' keeps_amp (λ d h. refl) (some (to_sep b'&' t))
        (length t + 1) (pct_encode_bytes query_chars encode_opts front + 1) 0 rest
        (to_sep-IsRest b'&' t) (omega (arith, length-to_sep b'&' t)) in
    rw loop (
      ap₂ (λ n k. ok (n, k, true))
        (omega (
          arith,
          size-plain query_chars query_chars b'&' keeps_amp (λ d h. refl) t,
          ap length (encoded-to_sep b'&' query_chars t),
          length-append (encoded_query_of front) (encoded_query_of rest),
        ))
        (omega (arith, to_sep-seps b'&' t)))

copied :
    (c : ℕ) (s : Bytes) (room : ℕ)
    → length (encoded_query_of (c ∷ s)) ≤ room
    → copy_loop b'&'
        (suc (seps b'&' (c ∷ s)))
        (plain_query_iter (c ∷ s))
        (plain_query_iter (c ∷ s)).place
        room
      ≡ encoded_query_of (c ∷ s)
unfolding plain_query_iter first_param
copied c s room le =
    copy_loop-plain query_chars query_chars b'&' keeps_amp (λ d h. refl)
      (some (to_sep b'&' (c ∷ s))) room (c ∷ s) le

insert_params-plain :
    (c : ℕ) (s : Bytes) (u : Url)
    → IsValid u
    → HasParams u
    → Fits u id_query id_frag (1 + length (encoded_query_of (c ∷ s)))
    → (v : Url) × (insert_params (length (c ∷ s) + 1) 0 u.nparam_ (plain_query_iter (c ∷ s)) true u
        ≡ ok v)
      × Replaced u id_query (b'?' ∷ encoded_query_of (c ∷ s)) v
      × (v.nparam_ ≡ suc (seps b'&' (c ∷ s)))
unfolding insert_params
insert_params-plain c s u valid params fits =
    let text = b'?' ∷ encoded_query_of (c ∷ s) in
    let n = 1 + length (encoded_query_of (c ∷ s)) in
    let k = suc (seps b'&' (c ∷ s)) in
    let (m, m_is, e) = edit_params-edited u n k valid fits params in
    let some_params : (k == 0) ≡ false = ground arith in
    let v = edited u id_query n m valid (omega arith) fits m_is in
    (
      put (offset u id_query) text (record v { nparam_ = k }),
      rw (measure_all-plain c s, e, some_params, copied c s (n - 0) (omega arith)) refl,
      Replaced-rest u (put (offset u id_query) text v) id_query _ _ _ _ _ _ _ _ (
          Edited-Replaced id_query valid (omega arith)
            (edited-put u id_query n m valid (omega arith) fits m_is text (omega arith))
            (omega (arith, fits))),
      refl,
    )

query_chars_no_pct : query_chars b'%' ≡ false
unfolding query_chars
query_chars_no_pct = refl

bytes_unchecked-escape :
    (h l : ℕ) (s : Bytes)
    → pct_decode_bytes_unchecked (b'%' ∷ h ∷ l ∷ s) ≡ suc (pct_decode_bytes_unchecked s)
unfolding pct_decode_bytes_unchecked
bytes_unchecked-escape h l s = refl

-- A query's decoded size is that of what was encoded.
bytes_unchecked-encoded : (s : Bytes) → pct_decode_bytes_unchecked (encoded_query_of s) ≡ length s
unfolding encode_one
bytes_unchecked-encoded [] = unfold pct_decode_bytes_unchecked in refl
bytes_unchecked-encoded (c ∷ s) = elim (Bool-cases (query_chars c)) [
  | inl kept ↦
      let other : (c == b'%') ≡ false = elim (Bool-cases (c == b'%')) [
        | inl pct ↦
            absurd
              (true_false (sym kept ∙ ap query_chars ((==_iff c b'%').0 pct) ∙ query_chars_no_pct))
        | inr other ↦ other
      ] in
      rw (kept)
        (bytes_unchecked-char c (encoded_query_of s) other ∙ ap suc (bytes_unchecked-encoded s))
  | inr escaped ↦ rw escaped (
      bytes_unchecked-escape (hex_digit (c / 16)) (hex_digit (c % 16)) (encoded_query_of s)
      ∙ ap suc (bytes_unchecked-encoded s))
]
  where
    true_false : true ≡ false → ⊥
    true_false e = cc

-- `set_query` of a string that is not empty never throws on a valid table with counted parameters while the
-- result fits. The query is then '?' and the encoding of the string, whose '&' divide it into one parameter
-- more than their number; its decoded size is the string's, every other part keeps its characters, and the
-- table stays valid.
pub set_query_lem :
    (c : ℕ) (s : Bytes) (u : Url)
    → IsValid u
    → HasParams u
    → Fits u id_query id_frag (1 + pct_encode_bytes query_chars encode_opts (c ∷ s))
    → (v : Url) × (set_query (c ∷ s) u ≡ ok v)
      × Replaced u id_query (b'?' ∷ pct_encode_to_string (c ∷ s) query_chars encode_opts) v
      × (v.nparam_ ≡ 1 + seps b'&' (c ∷ s))
      × (v.decoded_ id_query ≡ length (c ∷ s))
unfolding set_query set_query_by
set_query_lem c s u valid params fits =
    let t = c ∷ s in
    let text = pct_encode_to_string-exact query_chars encode_opts t in
    let (v, e, replaced, count) =
      insert_params-plain c s u valid params
        (omega (arith, fits, length-encode_all query_chars encode_opts t)) in
    let named = subst (λ r. Replaced u id_query (b'?' ∷ r) v) (sym (text.0)) replaced in
    (
      set_decoded id_query (pct_decode_bytes_unchecked (encoded_query v)) v,
      rw e refl,
      Replaced-rest u v id_query _ _ _ _ _ _ _ _ named,
      rw count (omega arith),
      (unfold encoded_query in rw (replaced.1) (bytes_unchecked-encoded t)),
    )
