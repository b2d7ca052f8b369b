-- ===== src/Rfc/Query/Yields.antt =====
-- The texts that the rules for queries and fragments take.
use boost_url.Base.{
  ℕ, ◌≡◌, refl, ap, ◌⊎◌, inl, inr, true, false, Option, [], ◌∷◌, ◌++◌, append-nil, ◌==◌, Bool-cases,
  ==_iff, Bytes, Holds,
}
use boost_url.Chars.{fragment_chars}
use boost_url.Grammar.{Rule, delim_rule, ◌>>◌, optional_rule}
use boost_url.Grammar.Yields.{
  Taken, Yields, Yields-bind, Yields-map, Maybe, optional_rule-Yields, delim_rule-Yields,
  Holds-cons,
}
use boost_url.Pct.View.{PctEncodedView}
use boost_url.Range.{no_limit, Range}
use boost_url.Range.Laws.{IsRange, range_rule-Yields}
use boost_url.Rfc.PctEncoded.{pct_encoded_rule, IsPctEncoded, pct_encoded_rule-Yields}
use boost_url.Rfc.Query.{
  key_chars, value_chars, query_value_rule, query_param_rule, query_rule, query_part_rule,
  fragment_rule, fragment_part_rule, QueryParam,
}

-- key [ "=" value ]
abbrev pub IsParam : Bytes → QueryParam → Type 0
IsParam t v =
    (k : Bytes) × (w : Bytes) × (t ≡ k ++ w)
    × IsPctEncoded key_chars k v.key
    × (((w ≡ []) × (v.has_value ≡ false))
        ⊎ ((x : Bytes) × (w ≡ b'=' ∷ x)
            × (v.has_value ≡ true)
            × IsPctEncoded value_chars x v.value))

query_value_rule-Yields :
    (k : Bytes) (key : PctEncodedView)
    → IsPctEncoded key_chars k key
    → Yields (λ t v. IsParam (k ++ t) v) (query_value_rule key)
unfolding query_value_rule
query_value_rule-Yields k key h [] = ([], refl, (k, [], refl, h, inl (refl, refl)))
query_value_rule-Yields k key h (c ∷ s) = elim (Bool-cases (c == b'=')) [
  | inr other ↦ rw other ([], refl, (k, [], refl, h, inl (refl, refl)))
  | inl equals ↦ rw equals (
      Holds-cons (λ t v. IsParam (k ++ t) v) c s _
        (Yields-bind (IsPctEncoded value_chars) (λ t v. IsParam (k ++ c ∷ t) v) _
          (pct_encoded_rule value_chars) (pct_encoded_rule-Yields value_chars)
          (λ x view g rest. (
            [],
            refl,
            (
              k,
              c ∷ x,
              ap (λ y. k ++ c ∷ y) (append-nil x),
              h,
              inr (x, ap (λ y. y ∷ x) ((==_iff c b'=').0 equals), refl, g),
            ),
          ))
          s))
]

pub query_param_rule-Yields : Yields IsParam query_param_rule
unfolding query_param_rule
query_param_rule-Yields =
    Yields-bind (IsPctEncoded key_chars) IsParam query_value_rule (pct_encoded_rule key_chars)
      (pct_encoded_rule-Yields key_chars) query_value_rule-Yields

abbrev pub IsParamText : Bytes → Type 0
IsParamText t = (v : QueryParam) × IsParam t v

-- A '&' and a parameter
abbrev pub IsNextParam : Bytes → Type 0
IsNextParam t = (u : Bytes) × (t ≡ b'&' ∷ u) × IsParamText u

-- Parameters with a '&' between them.
abbrev pub IsQuery : Bytes → Range → Type 0
IsQuery = IsRange 0 IsParamText IsNextParam

param-Yields : Yields (λ t _. IsParamText t) query_param_rule
param-Yields =
    Yields-map IsParam (λ t _. IsParamText t) query_param_rule query_param_rule-Yields
      (λ t v h. (v, h))

-- `query_rule` takes parameters with a '&' between them, each a key and maybe a '=' and a value, and
-- the range that it returns has their text and their number.
pub query_rule-Yields : (s : Bytes) → Holds (Taken IsQuery s) (query_rule s)
unfolding query_rule
query_rule-Yields =
    range_rule-Yields IsParamText IsNextParam query_param_rule _ param-Yields
      (Yields-bind (λ t _. t ≡ b'&' ∷ []) (λ t _. IsNextParam t) _ (delim_rule b'&')
        (delim_rule-Yields b'&')
        (λ t v e.
          Yields-map (λ t1 _. IsParamText t1) _ query_param_rule param-Yields
            (λ t1 w p. (t1, ap (λ x. x ++ t1) e, p))))
      0 no_limit

-- A delimiter, then what another rule takes; or nothing.
part-Yields {ℓ} :
    {T : Type ℓ} (d : ℕ) (P : Bytes → T → Type 0) (r : Rule T)
    → Yields P r
    → Yields (Maybe (λ t v. (u : Bytes) × (t ≡ d ∷ u) × P u v)) (optional_rule (delim_rule d >> r))
part-Yields d P r h =
    optional_rule-Yields (λ t v. (u : Bytes) × (t ≡ d ∷ u) × P u v) (delim_rule d >> r)
      (Yields-bind (λ t _. t ≡ d ∷ []) (λ t v. (u : Bytes) × (t ≡ d ∷ u) × P u v) _ (delim_rule d)
        (delim_rule-Yields d)
        (λ t v e. Yields-map P _ r h (λ t1 w p. (t1, ap (λ x. x ++ t1) e, p))))

abbrev pub IsQueryPart : Bytes → Option Range → Type 0
IsQueryPart = Maybe (λ t v. (u : Bytes) × (t ≡ b'?' ∷ u) × IsQuery u v)

abbrev pub IsFragmentPart : Bytes → Option PctEncodedView → Type 0
IsFragmentPart = Maybe (λ t v. (u : Bytes) × (t ≡ b'#' ∷ u) × IsPctEncoded fragment_chars u v)

pub query_part_rule-Yields : Yields IsQueryPart query_part_rule
unfolding query_part_rule
query_part_rule-Yields = part-Yields b'?' IsQuery query_rule query_rule-Yields

pub fragment_part_rule-Yields : Yields IsFragmentPart fragment_part_rule
unfolding fragment_part_rule fragment_rule
fragment_part_rule-Yields =
    part-Yields b'#' (IsPctEncoded fragment_chars) (pct_encoded_rule fragment_chars)
      (pct_encoded_rule-Yields fragment_chars)
