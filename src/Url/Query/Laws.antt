-- ===== src/Url/Query/Laws.antt =====
-- What the query setters do to the parts of a URL.
use boost_url.Base.{
  ℕ, ◌+◌, ◌-◌, ◌≤◌, ◌≡◌, refl, ap, ◌∙◌, ◌≢◌, ◌⊎◌, inl, inr, false, [], ◌∷◌, arith, ltb, ◌==◌,
  Bool-cases, ==_iff, Bytes, ge→ltb, length, Option-cases, undefined, err, ok,
}
use boost_url.Url.{
  id_query, id_frag, id_end, pos_add, pos_sub, max_size, offset, size, len, get, set_size, Url,
}
use boost_url.Url.Frame.{IsValid}
use boost_url.Url.Iter.{to_sep}
use boost_url.Url.Parts.{len-eq, length-get}
use boost_url.Url.Query.{make_param, param_loop, param, edit_params, RawParam}
use boost_url.Url.Replace.{Fits}
use boost_url.Url.Resized.{edited}
use boost_url.Url.Userinfo.{find_first_of}

-- The parameters are counted: none for no query, one at least for a query.
abbrev pub HasParams : Url → Type 0
HasParams u = ((u.nparam_ ≡ 0) × (get u id_query ≡ [])) ⊎ ((1 ≤ u.nparam_) × (get u id_query ≢ []))

make_param-at : (k : ℕ) (s : Bytes) → (make_param k s).at ≡ k
unfolding make_param
make_param-at k s = elim (Option-cases (find_first_of b'=' s)) [
  | inl missing ↦ rw (make_param, missing) refl
  | inr (i, found) ↦ rw (make_param, found) refl
]

-- The first parameter starts the query.
param-first :
    (u : Url) → HasParams u → (a : RawParam) × (param 0 u ≡ ok a) × (a.at ≡ offset u id_query)
unfolding param
param-first u params = elim (Bool-cases (u.nparam_ == 0)) [
  | inl none' ↦ (record { at = offset u id_query; nk = 0; nv = 0 }, rw none' refl, refl)
  | inr some' ↦
      let differ : (0 == u.nparam_) ≡ false = ground (arith, some') in
      elim (Bool-cases (ltb u.nparam_ 2)) [
        | inl single ↦ (
          make_param (offset u id_query) (get u id_query),
          rw (some', differ, single) refl,
          make_param-at (offset u id_query) (get u id_query),
        )
        | inr several ↦
            by (get u id_query) (ground (arith, params, some')) (rw (some', differ, several) refl)
      ]
]
  where
    by :
        (path : Bytes)
        → path ≢ []
        → param 0 u
          ≡ (elim path [ [] ↦ err undefined | c ∷ s ↦ param_loop 0 (offset u id_query) c s ])
        → (a : RawParam) × (param 0 u ≡ ok a) × (a.at ≡ offset u id_query)
    by [] ne e = absurd (ne refl)
    by (c ∷ s) ne e = (
      make_param (offset u id_query) (c ∷ (to_sep b'&' s).0),
      e ∙ unfold param_loop in refl,
      make_param-at (offset u id_query) (c ∷ (to_sep b'&' s).0),
    )

-- The end of the parameters is that of the query.
param-last :
    (u : Url)
    → IsValid u
    → HasParams u
    → (b : RawParam) × (param u.nparam_ u ≡ ok b) × (b.at ≡ offset u id_frag)
unfolding param
param-last u valid params =
    let size_query = length-get valid id_query (omega arith) in
    let up = valid.ascend id_query id_frag (omega arith) (omega arith) in
    elim (Bool-cases (u.nparam_ == 0)) [
      | inl none' ↦
          let empty : get u id_query ≡ [] = ground (arith, params, none') in
          (
            record { at = offset u id_query; nk = 0; nv = 0 },
            rw none' refl,
            omega (arith, ap length empty, size_query, up),
          )
      | inr some' ↦ (
        record { at = offset u id_frag; nk = 0; nv = 0 },
        rw (some', (==_iff u.nparam_ u.nparam_).1 refl) refl,
        refl,
      )
    ]

-- `edit_params` of all parameters, with its two ends known.
pub edit_params-edited :
    (u : Url) (n k : ℕ) (valid : IsValid u) (fits : Fits u id_query id_frag n)
    → HasParams u
    → (m : ℕ) × (m_is : m ≡ n) × (edit_params 0 u.nparam_ n k u
        ≡ ok (
          offset u id_query,
          record (edited u id_query n m valid (omega arith) fits m_is) { nparam_ = k },
        ))
unfolding edit_params set_size
edit_params-edited u n k valid fits params =
    let p = offset u id_query in
    let q = offset u id_frag in
    let (a, ea, at_a) = param-first u params in
    let (b, eb, at_b) = param-last u valid params in
    let up = valid.ascend id_query id_frag (omega arith) (omega arith) in
    let small : ltb max_size (size u + n - (q - p)) ≡ false =
      ge→ltb {a = max_size} (omega (arith, fits, up)) in
    let count : u.nparam_ + k - (u.nparam_ - 0) ≡ k = omega arith in
    (
      pos_add (len u id_query) (pos_sub n (q - p)),
      omega (
        arith,
        len-eq valid id_query (omega arith),
        fits,
        up,
        valid.small,
        valid.ascend id_frag id_end (omega arith) (omega arith),
      ),
      rw (ea, eb, at_a, at_b, small, count) refl,
    )
