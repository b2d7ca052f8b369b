-- ===== src/Rfc/Uri/Hier.antt =====
-- What the rules for URLs make of the authority and the path.
use boost_url.Base.{
  ℕ, ◌≤◌, ◌≡◌, refl, sym, ap, ◌∙◌, ◌⊎◌, inl, inr, true, none, some, [], ◌∷◌, ◌++◌, append-nil, ◌==◌,
  Bool-cases, ==_iff, Bytes, length, take, Holds, Holds-map, Result, undefined, err, ok,
}
use boost_url.Grammar.{Rule}
use boost_url.Grammar.Yields.{Taken, Yields, Yields-bind}
use boost_url.Range.{Range}
use boost_url.Rfc.Path.{
  path_abempty_rule, path_absolute_rule, path_noscheme_rule, path_rootless_rule,
}
use boost_url.Rfc.Path.Yields.{
  IsPathAbempty, IsPathAbsolute, IsPathNoscheme, IsPathRootless, path_rules_yield,
}
use boost_url.Rfc.Uri.{
  made, authority_parts, authority_rule, no_path, authority_path_rule, absolute_part, path_or_empty,
  hier_part_rule, untested_absolute_part, relative_part_rule, HierPart,
}
use boost_url.Rfc.Uri.Authority.{
  UserText, HostText, PortText, authority_parts-Yields, AuthorityTable,
}
use boost_url.Url.{max_size, size, Url}
use boost_url.Url.View.{path}

-- The path of a URL with no authority: empty, path-absolute, or as `F`, which is path-rootless in a URI
-- and path-noscheme in a relative reference.
abbrev pub PathForm : (Bytes → Range → Type 0) → Bytes → Range → Type 0
PathForm F t v = ((t ≡ []) × (v.string ≡ [])) ⊎ IsPathAbsolute t v ⊎ F t v

-- The texts of the authority's four parts and of the path: the four are empty, or the first starts
-- with "//" and the path is path-abempty.
abbrev pub HierText : (Bytes → Range → Type 0) → Bytes → Bytes → Bytes → Bytes → Bytes → Type 0
HierText F x y h p a =
    ((x ≡ []) × (y ≡ []) × (h ≡ []) × (p ≡ []) × ((v : Range) × PathForm F a v))
    ⊎ ((z : Bytes) × (x ≡ b'/' ∷ b'/' ∷ z)
        × UserText z y
        × HostText h
        × PortText p
        × ((v : Range) × IsPathAbempty a v))

-- What `hier_part_rule` and `relative_part_rule` return for the text `t`.
abbrev pub IsHierPart : (Bytes → Range → Type 0) → Bytes → HierPart → Type 0
IsHierPart F t v =
    ((v.authority ≡ none) × PathForm F t v.path)
    ⊎ ((a : Url) × (v.authority ≡ some a)
        × ((u : Bytes) × (w : Bytes) × (t ≡ b'/' ∷ b'/' ∷ (u ++ w))
            × (length u ≤ max_size → AuthorityTable u a)
            × IsPathAbempty w v.path))

pub PathForm-string :
    (F : Bytes → Range → Type 0) (t : Bytes) (v : Range)
    → (F t v → v.string ≡ t)
    → PathForm F t v
    → v.string ≡ t
PathForm-string F t v k (inl (e, f)) = f ∙ sym e
PathForm-string F t v k (inr (inl (e, _, _))) = e
PathForm-string F t v k (inr (inr h)) = k h

-- `construct` changes the characters only.
pub made-Yields :
    (P : Bytes → Url → Type 0) (r : Rule Url)
    → Yields P r
    → ((t : Bytes) (u : Url) (cs : Bytes) → P t u → P t (record u { chars = cs }))
    → Yields P (made r)
made-Yields P r h k s = taken (r s) (h s)
  where
    taken :
        (x : Result (Url × Bytes))
        → Holds (Taken P s) x
        → Holds (Taken P s) (elim x [
          | err why ↦ err why
          | ok (u, rest) ↦ ok (record u { chars = take (size u) s }, rest)
        ])
    taken (err why) _ = tt
    taken (ok (u, rest)) (t, e, q) = (t, e, k t u (take (size u) s) q)

authority_rule-Yields : Yields (λ t u. length t ≤ max_size → AuthorityTable t u) authority_rule
unfolding authority_rule
authority_rule-Yields =
    made-Yields (λ t u. length t ≤ max_size → AuthorityTable t u) authority_parts
      authority_parts-Yields (λ t u cs k small. moved (k small))
  where
    moved :
        {t : Bytes} {u : Url} {cs : Bytes}
        → AuthorityTable t u
        → AuthorityTable t (record u { chars = cs })
    moved k = record {
      x = k.x;
      y = k.y;
      h = k.h;
      p = k.p;
      whole = k.whole;
      laid = k.laid;
      user_text = k.user_text;
      host_text = k.host_text;
      port_text = k.port_text;
    }

authority_path_rule-Yields :
    (F : Bytes → Range → Type 0)
    → Yields
        (λ t v.
          (a : Url) × (v.authority ≡ some a)
          × ((u : Bytes) × (w : Bytes) × (t ≡ u ++ w)
              × (length u ≤ max_size → AuthorityTable u a)
              × IsPathAbempty w v.path))
        authority_path_rule
unfolding authority_path_rule
authority_path_rule-Yields F = Yields-bind _ _ _ authority_rule authority_rule-Yields (λ u a k.
    Yields-bind IsPathAbempty _ _ path_abempty_rule (path_rules_yield.0)
      (λ w path l rest. ([], refl, (a, refl, (u, w, ap (◌++◌ u) (append-nil w), k, l)))))

path_or_empty-Yields :
    (F : Bytes → Range → Type 0) (r : Rule Range)
    → Yields F r
    → Yields (IsHierPart F) (path_or_empty r)
unfolding path_or_empty
path_or_empty-Yields F r h s = taken (r s) (h s)
  where
    taken :
        (x : Result (Range × Bytes))
        → Holds (Taken F s) x
        → Holds (Taken (IsHierPart F) s) (elim x [
          | err _ ↦ ok (record { authority = none; path = no_path }, s)
          | ok (path, rest) ↦ ok (record { authority = none; path = path }, rest)
        ])
    taken (err why) _ = ([], refl, inl (refl, inl (refl, refl)))
    taken (ok (path, rest)) (t, e, k) = (t, e, inl (refl, inr (inr k)))

absolute_part-Yields : (F : Bytes → Range → Type 0) → Yields (IsHierPart F) absolute_part
unfolding absolute_part
absolute_part-Yields F =
    Yields-bind IsPathAbsolute (IsHierPart F) _ path_absolute_rule (path_rules_yield.1)
      (λ t v k rest. ([], refl, inl (refl, inr (inl (rw (append-nil t) k)))))

untested-Yields : (F : Bytes → Range → Type 0) → Yields (IsHierPart F) untested_absolute_part
unfolding untested_absolute_part
untested-Yields F s = taken (path_absolute_rule s) (path_rules_yield.1 s)
  where
    taken :
        (x : Result (Range × Bytes))
        → Holds (Taken IsPathAbsolute s) x
        → Holds (Taken (IsHierPart F) s) (elim x [
          | err _ ↦ err undefined
          | ok (path, rest) ↦ ok (record { authority = none; path = path }, rest)
        ])
    taken (err why) _ = tt
    taken (ok (path, rest)) (t, e, k) = (t, e, inl (refl, inr (inl k)))

-- Behind the "//".
slashes-Yields :
    (F : Bytes → Range → Type 0) (c d : ℕ) (s : Bytes)
    → (c == b'/') ≡ true
    → (d == b'/') ≡ true
    → Holds (Taken (IsHierPart F) (c ∷ d ∷ s)) (authority_path_rule s)
slashes-Yields F c d s h k =
    Holds-map _ (Taken (IsHierPart F) (c ∷ d ∷ s)) (authority_path_rule s)
      (authority_path_rule-Yields F s)
      (λ p (t, e, (a, f, (u, w, g, table, path))). (
        c ∷ d ∷ t,
        ap (λ x. c ∷ d ∷ x) e,
        inr (
          a,
          f,
          (
            u,
            w,
            rw ((==_iff c b'/').0 h, (==_iff d b'/').0 k) (ap (λ x. b'/' ∷ b'/' ∷ x) g),
            table,
            path,
          ),
        ),
      ))

pub hier_part_rule-Yields : Yields (IsHierPart IsPathRootless) hier_part_rule
unfolding hier_part_rule
hier_part_rule-Yields [] = ([], refl, inl (refl, inl (refl, refl)))
hier_part_rule-Yields (c ∷ []) = elim (Bool-cases (c == b'/')) [
  | inl slash ↦ rw slash (absolute_part-Yields IsPathRootless (c ∷ []))
  | inr other ↦
      rw other
        (path_or_empty-Yields IsPathRootless path_rootless_rule (path_rules_yield.3) (c ∷ []))
]
hier_part_rule-Yields (c ∷ d ∷ s) = elim (Bool-cases (c == b'/')) [
  | inr other ↦
      rw other
        (path_or_empty-Yields IsPathRootless path_rootless_rule (path_rules_yield.3) (c ∷ d ∷ s))
  | inl slash ↦ elim (Bool-cases (d == b'/')) [
    | inr one ↦ rw (slash, one) (absolute_part-Yields IsPathRootless (c ∷ d ∷ s))
    | inl two ↦ rw (slash, two) (slashes-Yields IsPathRootless c d s slash two)
  ]
]

pub relative_part_rule-Yields : Yields (IsHierPart IsPathNoscheme) relative_part_rule
unfolding relative_part_rule
relative_part_rule-Yields [] = ([], refl, inl (refl, inl (refl, refl)))
relative_part_rule-Yields (c ∷ []) = elim (Bool-cases (c == b'/')) [
  | inl slash ↦ rw slash (untested-Yields IsPathNoscheme (c ∷ []))
  | inr other ↦
      rw other
        (path_or_empty-Yields IsPathNoscheme path_noscheme_rule (path_rules_yield.2) (c ∷ []))
]
relative_part_rule-Yields (c ∷ d ∷ s) = elim (Bool-cases (c == b'/')) [
  | inr other ↦
      rw other
        (path_or_empty-Yields IsPathNoscheme path_noscheme_rule (path_rules_yield.2) (c ∷ d ∷ s))
  | inl slash ↦ elim (Bool-cases (d == b'/')) [
    | inr one ↦ rw (slash, one) (untested-Yields IsPathNoscheme (c ∷ d ∷ s))
    | inl two ↦ rw (slash, two) (slashes-Yields IsPathNoscheme c d s slash two)
  ]
]
