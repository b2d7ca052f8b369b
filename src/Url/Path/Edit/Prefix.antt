-- ===== src/Url/Path/Edit/Prefix.antt =====
-- What stands in front of a path that `edit_segments` writes.
use boost_url.Base.{
  ℕ, suc, ◌/◌, ◌%◌, ◌≤◌, ◌≡◌, refl, sym, ap, ◌∙◌, ◌⊎◌, inl, inr, Bool, true, false, ◌&&◌, ◌||◌,
  none, [], ◌∷◌, ◌++◌, arith, ltb, ◌==◌, Bool-cases, ==_iff, Bytes, codes, length, Option-cases,
  is_empty, All, equal,
}
use boost_url.Chars.{path_chars}
use boost_url.DotSegments.{starts_with, to_slash}
use boost_url.Ipv6.{colon}
use boost_url.Pct.Encode.{hex_digit, encode_one}
use boost_url.Url.{Url}
use boost_url.Url.Fragment.{encode_opts}
use boost_url.Url.Iter.{to_sep}
use boost_url.Url.Iter.Measured.{encoded, seps}
use boost_url.Url.Path.{clean_path}
use boost_url.Url.Path.Edit.{prefix_size, prefix_text}
use boost_url.Url.Path.Edit.Clean.{
  clean-dot, clean-slash_dot, clean-slash, clean-plain, starts_with-two,
}
use boost_url.Url.SchemePart.Front.{NoColonFirst, find_first_of-none}
use boost_url.Url.Userinfo.{find_first_of}
use boost_url.Url.View.{has_scheme, scheme, has_authority}
use mathlib.Core.Path.{subst}

-- What `edit_segments` decides on a first segment `front` of `nseg`.
abbrev pub Prefixed : Url → Bool → ℕ → Bytes → ℕ → Type 0
Prefixed u abs nseg front n =
    ((n ≡ 3) × ((has_authority u || abs) ≡ true))
    ⊎ (((n ≡ 2) × ((has_authority u || abs) ≡ false))
        ⊎ (((n ≡ 1)
              × ((has_authority u || abs) ≡ true)
              × ((equal front (codes ".") && ltb 1 nseg) ≡ false)
              × (is_empty front ≡ false))
            ⊎ ((n ≡ 0)
                × ((has_authority u || abs) ≡ false)
                × ((equal front (codes ".") && ltb 1 nseg) ≡ false)
                × (is_empty front ≡ false)
                × ((has_scheme u ≡ true) ⊎ (find_first_of b':' front ≡ none)))))

pub prefix_size-Prefixed :
    (u : Url) (abs : Bool) (nseg : ℕ) (front : Bytes)
    → 1 ≤ nseg
    → (has_authority u ≡ true) ⊎ ((abs ≡ true) ⊎ (is_empty front ≡ false))
    → Prefixed u abs nseg front (prefix_size u abs 0 nseg front)
unfolding prefix_size
prefix_size-Prefixed u abs nseg front some_segments fixed =
    elim (Option-cases (find_first_of b':' front)) [
      | inl missing ↦ rw missing (ground (arith, some_segments, fixed, missing))
      | inr (i, found) ↦ rw found (ground (arith, some_segments, fixed))
    ]

pub Prefixed-small :
    (u : Url) (abs : Bool) (nseg : ℕ) (front : Bytes) (n : ℕ) → Prefixed u abs nseg front n → n ≤ 3
Prefixed-small u abs nseg front n prefixed = ground (arith, prefixed)

-- The encoding of a path, whose '/' are kept.
abbrev pub encoded_path_of : Bytes → Bytes
encoded_path_of s = encoded path_chars s

pub slash_kept : path_chars b'/' ≡ true
unfolding path_chars
slash_kept = refl

encode_kept : (c : ℕ) → path_chars c ≡ true → encode_one path_chars encode_opts c ≡ c ∷ []
unfolding encode_one
encode_kept c kept = rw kept refl

encode_escaped :
    (c : ℕ)
    → path_chars c ≡ false
    → encode_one path_chars encode_opts c ≡ b'%' ∷ hex_digit (c / 16) ∷ hex_digit (c % 16) ∷ []
unfolding encode_one
encode_escaped c escaped = rw escaped refl

-- A first segment that is not empty does not start with '/' when it is encoded.
encoded-no_slash :
    (s : Bytes)
    → is_empty (to_sep b'/' s).0 ≡ false
    → (starts_with (codes "/") (encoded_path_of s) ≡ false) × (1 ≤ length (encoded_path_of s))
unfolding starts_with to_sep
encoded-no_slash [] e = absurd (ground (arith, e))
encoded-no_slash (c ∷ s) e =
    let other : (c == b'/') ≡ false = elim (Bool-cases (c == b'/')) [
      | inl slash ↦ absurd (ground (arith, e, slash))
      | inr other ↦ other
    ] in
    elim (Bool-cases (path_chars c)) [
      | inl kept ↦ rw (encode_kept c kept, other) (refl, omega arith)
      | inr escaped ↦ rw (encode_escaped c escaped) (refl, omega arith)
    ]

dotted :
    (s : Bytes)
    → (equal (to_sep b'/' (b'.' ∷ b'/' ∷ s)).0 (codes ".")
        && ltb 1 (suc (seps b'/' (b'.' ∷ b'/' ∷ s))))
      ≡ true
unfolding to_sep seps
dotted s = ground arith

-- Only "./" is encoded as "./".
encoded-no_dot :
    (s : Bytes)
    → (equal (to_sep b'/' s).0 (codes ".") && ltb 1 (suc (seps b'/' s))) ≡ false
    → starts_with (codes "./") (encoded_path_of s) ≡ false
unfolding starts_with
encoded-no_dot [] e = refl
encoded-no_dot (c ∷ s) e = elim (Bool-cases (path_chars c)) [
  | inl kept ↦ elim (Bool-cases (c == b'.')) [
    | inl dot ↦
        rw (encode_kept c kept, dot)
          (behind s (subst (λ d. Undotted (d ∷ s)) ((==_iff c b'.').0 dot) e))
    | inr other ↦ rw (encode_kept c kept, other) refl
  ]
  | inr escaped ↦ rw (encode_escaped c escaped) refl
]
  where
    true_false : true ≡ false → ⊥
    true_false e = cc

    Undotted : Bytes → Type 0
    Undotted s = (equal (to_sep b'/' s).0 (codes ".") && ltb 1 (suc (seps b'/' s))) ≡ false

    behind : (s : Bytes) → Undotted (b'.' ∷ s) → starts_with (codes "/") (encoded_path_of s) ≡ false
    behind [] e = refl
    behind (d ∷ t) e = elim (Bool-cases (path_chars d)) [
      | inl kept ↦ elim (Bool-cases (d == b'/')) [
        | inl slash ↦ absurd (
            true_false
              (sym (dotted t) ∙ subst (λ x. Undotted (b'.' ∷ x ∷ t)) ((==_iff d b'/').0 slash) e))
        | inr other ↦ rw (encode_kept d kept, other) refl
      ]
      | inr escaped ↦ rw (encode_escaped d escaped) refl
    ]

-- A digit of an escape is no '/' and no ':'.
hex_digit-other : (n : ℕ) → ((hex_digit n == b'/') ≡ false) × ((hex_digit n == b':') ≡ false)
hex_digit-other n = (ground arith, ground arith)

-- A first segment with no ':' has none when it is encoded.
encoded-NoColonFirst :
    (s : Bytes)
    → All (λ c. (c == b':') ≡ false) (to_sep b'/' s).0
    → NoColonFirst (encoded_path_of s)
unfolding to_sep to_slash
encoded-NoColonFirst [] h = tt
encoded-NoColonFirst (c ∷ s) h = elim (Bool-cases (c == b'/')) [
  | inl slash ↦
      let kept : path_chars c ≡ true = ap path_chars ((==_iff c b'/').0 slash) ∙ slash_kept in
      rw (encode_kept c kept, slash) tt
  | inr other ↦
      let (first, more) = subst (All (λ c. (c == b':') ≡ false)) (in_front other) h in
      elim (Bool-cases (path_chars c)) [
        | inl kept ↦ rw (encode_kept c kept, other) (first, encoded-NoColonFirst s more)
        | inr escaped ↦
            let (no_slash, no_colon) = hex_digit-other (c / 16) in
            let (no_slash', no_colon') = hex_digit-other (c % 16) in
            rw (encode_escaped c escaped, no_slash, no_slash')
              (refl, (no_colon, (no_colon', encoded-NoColonFirst s more)))
      ]
]
  where
    in_front : (c == b'/') ≡ false → (to_sep b'/' (c ∷ s)).0 ≡ c ∷ (to_sep b'/' s).0
    in_front other = rw other refl

-- What a path is whose segments are encoded as `text`.
pub record Stands (u : Url) (abs : Bool) (text path : Bytes) : Type 0 where
  pub clean : clean_path path ≡ text
  pub slash : starts_with (codes "/") path ≡ (has_authority u || abs)
  pub no_authority : starts_with (codes "//") path ≡ false
  pub no_scheme : (has_scheme u ≡ true) ⊎ NoColonFirst path
  pub some_path : 1 ≤ length path

pub prefix_text-Stands :
    (u : Url) (abs : Bool) (s : Bytes) (n : ℕ)
    → Prefixed u abs (suc (seps b'/' s)) (to_sep b'/' s).0 n
    → (length (prefix_text n) ≡ n)
      × Stands u abs (encoded_path_of s) (prefix_text n ++ encoded_path_of s)
unfolding prefix_text starts_with to_slash
prefix_text-Stands u abs s n prefixed =
    let text = encoded_path_of s in
    elim prefixed [
      | inl (three, absolute) ↦ rw three (
        refl,
        record {
          clean = clean-slash_dot text;
          slash = sym absolute;
          no_authority = refl;
          no_scheme = inr tt;
          some_path = omega arith;
        },
      )
      | inr (inl (two, relative)) ↦ rw two (
        refl,
        record {
          clean = clean-dot text;
          slash = sym relative;
          no_authority = refl;
          no_scheme = inr (refl, tt);
          some_path = omega arith;
        },
      )
      | inr (inr (inl (one, absolute, undotted, some_front))) ↦ rw one (
        refl,
        record {
          clean = clean-slash text (encoded-no_dot s undotted);
          slash = sym absolute;
          no_authority = (encoded-no_slash s some_front).0;
          no_scheme = inr tt;
          some_path = omega arith;
        },
      )
      | inr (inr (inr (none', relative, undotted, some_front, colon))) ↦ rw none' (
        refl,
        record {
          clean = clean-plain text (encoded-no_slash s some_front).0 (encoded-no_dot s undotted);
          slash = (encoded-no_slash s some_front).0 ∙ sym relative;
          no_authority = starts_with-two text (encoded-no_slash s some_front).0;
          no_scheme = elim colon [
            | inl scheme ↦ inl scheme
            | inr missing ↦
                inr (encoded-NoColonFirst s (find_first_of-none b':' (to_sep b'/' s).0 missing))
          ];
          some_path = (encoded-no_slash s some_front).1;
        },
      )
    ]
