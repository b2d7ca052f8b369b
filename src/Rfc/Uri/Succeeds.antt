-- ===== src/Rfc/Uri/Succeeds.antt =====
-- Where the rules for URLs cannot fail, and where `relative_ref_rule` reads what is not there.
use boost_url.Base.{
  ℕ, ◌≡◌, refl, ap, ◌∙◌, true, false, Option, none, some, [], ◌∷◌, ◌++◌, ◌==◌, Bytes, take, All,
  Result, err, ok,
}
use boost_url.Chars.{CharSet, alpha_chars, alnum_chars}
use boost_url.Grammar.{Rule, delim_rule, ◌>>=◌, ◌>>◌, give, find_if_not, optional_rule}
use boost_url.Range.{Range}
use boost_url.Rfc.Path.{path_rootless_rule}
use boost_url.Rfc.Query.{query_rule, query_part_rule, fragment_rule, fragment_part_rule}
use boost_url.Rfc.Uri.{
  made, no_path, path_or_empty, hier_part_rule, scheme_part_rule, uri_parts, uri_rule, HierPart,
}
use boost_url.Rfc.Userinfo.{scheme_chars, scheme_rule, SchemeValue}
use boost_url.Scheme.{string_to_scheme}
use boost_url.Url.{size, Url}
use boost_url.Url.View.{path}

abbrev pub Succeeds {ℓ} : {T : Type ℓ} → Rule T → Bytes → Type ℓ
Succeeds {T = T} r s = (v : T) × (rest : Bytes) × (r s ≡ ok (v, rest))

Succeeds-bind {ℓ κ} :
    {S : Type ℓ} {T : Type κ} (r : Rule S) (next : S → Rule T) (s : Bytes) (x : Succeeds r s)
    → Succeeds (next x.0) x.1
    → Succeeds (r >>= next) s
Succeeds-bind r next s (v, rest, e) (w, end, f) = (w, end, rw (e, ◌>>=◌) f)

optional_rule-Succeeds {ℓ} : {T : Type ℓ} (r : Rule T) (s : Bytes) → Succeeds (optional_rule r) s
unfolding optional_rule
optional_rule-Succeeds r [] = (none, [], refl)
optional_rule-Succeeds {T = T} r (c ∷ s) = taken (r (c ∷ s))
  where
    taken :
        (x : Result (T × Bytes))
        → (v : Option T) × (end : Bytes) × ◌≡◌ {A = Result (Option T × Bytes)}
            (elim x [ err _ ↦ ok (none, c ∷ s) | ok (value, rest) ↦ ok (some value, rest) ])
            (ok (v, end))
    taken (err why) = (none, c ∷ s, refl)
    taken (ok (v, rest)) = (some v, rest, refl)

path_or_empty-Succeeds : (r : Rule Range) (s : Bytes) → Succeeds (path_or_empty r) s
unfolding path_or_empty
path_or_empty-Succeeds r s = taken (r s)
  where
    taken :
        (x : Result (Range × Bytes))
        → (v : HierPart) × (end : Bytes) × ◌≡◌ {A = Result (HierPart × Bytes)}
            (elim x [
              | err _ ↦ ok (record { authority = none; path = no_path }, s)
              | ok (path, rest) ↦ ok (record { authority = none; path = path }, rest)
            ])
            (ok (v, end))
    taken (err why) = (_, s, refl)
    taken (ok (p, rest)) = (_, rest, refl)

-- The input does not start with a '/'.
abbrev pub NoSlash : Bytes → Type 0
NoSlash [] = Unit
NoSlash (c ∷ s) = (c == b'/') ≡ false

hier_part_rule-Succeeds : (s : Bytes) → NoSlash s → Succeeds hier_part_rule s
unfolding hier_part_rule
hier_part_rule-Succeeds [] h = (_, [], refl)
hier_part_rule-Succeeds (c ∷ []) h = rw h (path_or_empty-Succeeds path_rootless_rule (c ∷ []))
hier_part_rule-Succeeds (c ∷ d ∷ s) h = rw h (path_or_empty-Succeeds path_rootless_rule (c ∷ d ∷ s))

find_if_not-stops :
    (cs : CharSet) (t : Bytes) (c : ℕ) (s : Bytes)
    → All (λ d. cs d ≡ true) t
    → cs c ≡ false
    → find_if_not cs (t ++ c ∷ s) ≡ (t, c ∷ s)
unfolding find_if_not
find_if_not-stops cs [] c s h k = rw k refl
find_if_not-stops cs (d ∷ t) c s (m, h) k =
    rw (m, find_if_not) (ap (λ p. (d ∷ p.0, p.1)) (find_if_not-stops cs t c s h k))

colon : scheme_chars b':' ≡ false
unfolding scheme_chars alnum_chars
colon = refl

scheme_rule-letter :
    (c : ℕ) (s : Bytes)
    → alpha_chars c ≡ true
    → scheme_rule (c ∷ s)
      ≡ ok (
        record {
          scheme = c ∷ (find_if_not scheme_chars s).0;
          scheme_id = string_to_scheme (c ∷ (find_if_not scheme_chars s).0);
        },
        (find_if_not scheme_chars s).1,
      )
unfolding scheme_rule
scheme_rule-letter c s letter = rw letter refl

scheme_rule-colon :
    (c : ℕ) (t s : Bytes)
    → alpha_chars c ≡ true
    → All (λ d. scheme_chars d ≡ true) t
    → scheme_rule (c ∷ (t ++ b':' ∷ s))
      ≡ ok (record { scheme = c ∷ t; scheme_id = string_to_scheme (c ∷ t) }, b':' ∷ s)
scheme_rule-colon c t s letter all =
    scheme_rule-letter c (t ++ b':' ∷ s) letter
    ∙ ap
        (λ (p : Bytes × Bytes).
          ok (record { scheme = c ∷ p.0; scheme_id = string_to_scheme (c ∷ p.0) }, p.1))
        (find_if_not-stops scheme_chars t b':' s all colon)

scheme_part_rule-Succeeds :
    (c : ℕ) (t s : Bytes)
    → alpha_chars c ≡ true
    → All (λ d. scheme_chars d ≡ true) t
    → scheme_part_rule ((c ∷ t) ++ b':' ∷ s)
      ≡ ok (record { scheme = c ∷ t; scheme_id = string_to_scheme (c ∷ t) }, s)
unfolding scheme_part_rule delim_rule
scheme_part_rule-Succeeds c t s letter all =
    ap
      (λ x. elim x as (λ _. Result (SchemeValue × Bytes)) [
        | err why ↦ err why
        | ok (v, rest) ↦ (delim_rule b':' >> give v) rest
      ])
      (scheme_rule-colon c t s letter all)

made-Succeeds : (r : Rule Url) (s : Bytes) → Succeeds r s → Succeeds (made r) s
made-Succeeds r s (u, rest, e) = (record u { chars = take (size u) s }, rest, rw (e, made) refl)

query_part_rule-Succeeds : (s : Bytes) → Succeeds query_part_rule s
unfolding query_part_rule
query_part_rule-Succeeds s = optional_rule-Succeeds (delim_rule b'?' >> query_rule) s

fragment_part_rule-Succeeds : (s : Bytes) → Succeeds fragment_part_rule s
unfolding fragment_part_rule
fragment_part_rule-Succeeds s = optional_rule-Succeeds (delim_rule b'#' >> fragment_rule) s

-- Behind a scheme and its ':', `uri_rule` takes every input that does not start with a '/': whatever
-- follows, it returns a URL.
pub uri_rule-Succeeds :
    (c : ℕ) (t s : Bytes)
    → alpha_chars c ≡ true
    → All (λ d. scheme_chars d ≡ true) t
    → NoSlash s
    → Succeeds uri_rule ((c ∷ t) ++ b':' ∷ s)
unfolding uri_rule uri_parts
uri_rule-Succeeds c t s letter all h = made-Succeeds uri_parts ((c ∷ t) ++ b':' ∷ s) (
    Succeeds-bind scheme_part_rule _ ((c ∷ t) ++ b':' ∷ s)
      (_, s, scheme_part_rule-Succeeds c t s letter all)
      (let hier = hier_part_rule-Succeeds s h in
        let query = query_part_rule-Succeeds (hier.1) in
        Succeeds-bind hier_part_rule _ s hier (
          Succeeds-bind query_part_rule _ (hier.1) query (
            Succeeds-bind fragment_part_rule _ (query.1) (fragment_part_rule-Succeeds (query.1))
              (_, _, refl)))))
