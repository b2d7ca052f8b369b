-- ===== src/Rfc/Userinfo/Yields.antt =====
-- The texts that the rules for schemes and user infos take.
use boost_url.Base.{
  ℕ, ◌≡◌, refl, ap, ◌⊎◌, inl, inr, true, false, [], ◌∷◌, ◌++◌, append-nil, ◌==◌, Bool-cases, ==_iff,
  Bytes, All,
}
use boost_url.Chars.{alpha_chars}
use boost_url.Grammar.{find_if_not}
use boost_url.Grammar.Yields.{Yields, Yields-bind, find_if_not-append, find_if_not-All, Holds-cons}
use boost_url.Pct.View.{PctEncodedView}
use boost_url.Rfc.PctEncoded.{pct_encoded_rule, IsPctEncoded, pct_encoded_rule-Yields}
use boost_url.Rfc.Userinfo.{
  scheme_chars, scheme_rule, uchars, pwchars, password_rule, userinfo_rule, SchemeValue,
  UserinfoValue,
}
use boost_url.Scheme.{string_to_scheme}
use boost_url.Url.View.{user}

-- A letter, then characters of a scheme.
abbrev pub IsScheme : Bytes → SchemeValue → Type 0
IsScheme t v =
    (v.scheme ≡ t)
    × (v.scheme_id ≡ string_to_scheme t)
    × ((c : ℕ) × (s : Bytes) × (t ≡ c ∷ s)
        × (alpha_chars c ≡ true)
        × All (λ d. scheme_chars d ≡ true) s)

pub scheme_rule-Yields : Yields IsScheme scheme_rule
unfolding scheme_rule
scheme_rule-Yields [] = tt
scheme_rule-Yields (c ∷ s) = elim (Bool-cases (alpha_chars c)) [
  | inr other ↦ rw other tt
  | inl letter ↦ rw letter (
    c ∷ (find_if_not scheme_chars s).0,
    ap (◌∷◌ c) (find_if_not-append scheme_chars s),
    (refl, refl, (c, (find_if_not scheme_chars s).0, refl, letter, find_if_not-All scheme_chars s)),
  )
]

-- `[ ":" password ]`, behind the user.
abbrev pub IsPassword : Bytes → UserinfoValue → Type 0
IsPassword w v =
    ((w ≡ []) × (v.has_password ≡ false))
    ⊎ ((p : Bytes) × (w ≡ b':' ∷ p) × (v.has_password ≡ true) × IsPctEncoded pwchars p v.password)

-- user [ ":" password ]
abbrev pub IsUserinfo : Bytes → UserinfoValue → Type 0
IsUserinfo t v =
    (u : Bytes) × (w : Bytes) × (t ≡ u ++ w) × IsPctEncoded uchars u v.user × IsPassword w v

password_rule-Yields :
    (u : Bytes) (user : PctEncodedView)
    → IsPctEncoded uchars u user
    → Yields (λ t v. IsUserinfo (u ++ t) v) (password_rule user)
unfolding password_rule
password_rule-Yields u user h [] = ([], refl, (u, [], refl, h, inl (refl, refl)))
password_rule-Yields u user h (c ∷ s) = elim (Bool-cases (c == b':')) [
  | inr other ↦ rw other ([], refl, (u, [], refl, h, inl (refl, refl)))
  | inl colon ↦ rw colon (
      Holds-cons (λ t v. IsUserinfo (u ++ t) v) c s _
        (Yields-bind (IsPctEncoded pwchars) (λ t v. IsUserinfo (u ++ c ∷ t) v) _
          (pct_encoded_rule pwchars) (pct_encoded_rule-Yields pwchars)
          (λ p view k rest. (
            [],
            refl,
            (
              u,
              c ∷ p,
              ap (λ x. u ++ c ∷ x) (append-nil p),
              h,
              inr (p, ap (λ x. x ∷ p) ((==_iff c b':').0 colon), refl, k),
            ),
          ))
          s))
]

-- `userinfo_rule` takes a user and maybe a ':' with a password, of the characters of each and whole
-- escapes, and its value has these texts.
pub userinfo_rule-Yields : Yields IsUserinfo userinfo_rule
unfolding userinfo_rule
userinfo_rule-Yields =
    Yields-bind (IsPctEncoded uchars) IsUserinfo password_rule (pct_encoded_rule uchars)
      (pct_encoded_rule-Yields uchars) password_rule-Yields
