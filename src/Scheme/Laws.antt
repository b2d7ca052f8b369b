-- ===== src/Scheme/Laws.antt =====
-- Which strings name a known scheme.
-- What is known of a string with its scheme.
use boost_url.Base.{ℕ, ◌≡◌, refl, sym, ap, ◌∙◌, ◌↔◌, [], ◌∷◌, map, arith, Bytes}
use boost_url.Chars.{to_lower}
use boost_url.Scheme.{string_to_scheme, to_string, Scheme, unknown, ftp, file, http, https, ws, wss}
use mathlib.Core.Path.{subst}

abbrev Names : Bytes → Scheme → Type 0
Names s Scheme.none = s ≡ []
Names s unknown = Unit
Names s x = map to_lower s ≡ to_string x

string_to_scheme-Names : (s : Bytes) → Names s (string_to_scheme s)
unfolding string_to_scheme to_string
string_to_scheme-Names [] = refl
string_to_scheme-Names (a ∷ []) = tt
string_to_scheme-Names (a ∷ b ∷ []) = ground arith
string_to_scheme-Names (a ∷ b ∷ c ∷ []) = ground arith
string_to_scheme-Names (a ∷ b ∷ c ∷ d ∷ []) = ground arith
string_to_scheme-Names (a ∷ b ∷ c ∷ d ∷ e ∷ []) = ground arith
string_to_scheme-Names (a ∷ b ∷ c ∷ d ∷ e ∷ f ∷ s) = tt

to_lower_twice : (c : ℕ) → to_lower (to_lower c) ≡ to_lower c
unfolding to_lower
to_lower_twice c = ground arith

-- The case of the letters does not matter.
pub string_to_scheme-map : (s : Bytes) → string_to_scheme (map to_lower s) ≡ string_to_scheme s
unfolding string_to_scheme
string_to_scheme-map [] = refl
string_to_scheme-map (a ∷ []) = refl
string_to_scheme-map (a ∷ b ∷ []) = rw (to_lower_twice a, to_lower_twice b)
string_to_scheme-map (a ∷ b ∷ c ∷ []) = rw (to_lower_twice a, to_lower_twice b, to_lower_twice c)
string_to_scheme-map (a ∷ b ∷ c ∷ d ∷ []) =
    rw (to_lower_twice a, to_lower_twice b, to_lower_twice c, to_lower_twice d)
string_to_scheme-map (a ∷ b ∷ c ∷ d ∷ e ∷ []) =
    rw (to_lower_twice a, to_lower_twice b, to_lower_twice c, to_lower_twice d, to_lower_twice e)
string_to_scheme-map (a ∷ b ∷ c ∷ d ∷ e ∷ f ∷ s) = refl

string_to_scheme-to_string : (x : Scheme) → string_to_scheme (to_string x) ≡ x
unfolding string_to_scheme to_string to_lower
string_to_scheme-to_string Scheme.none = refl
string_to_scheme-to_string unknown = refl
string_to_scheme-to_string ftp = refl
string_to_scheme-to_string file = refl
string_to_scheme-to_string http = refl
string_to_scheme-to_string https = refl
string_to_scheme-to_string ws = refl
string_to_scheme-to_string wss = refl

-- The schemes with a name.
abbrev pub IsKnown : Scheme → Type 0
IsKnown Scheme.none = ⊥
IsKnown unknown = ⊥
IsKnown x = Unit

known_name : (s : Bytes) (x : Scheme) → IsKnown x → Names s x → map to_lower s ≡ to_string x
known_name s Scheme.none known h = elim known [ ]
known_name s unknown known h = elim known [ ]
known_name s ftp known h = h
known_name s file known h = h
known_name s http known h = h
known_name s https known h = h
known_name s ws known h = h
known_name s wss known h = h

-- `string_to_scheme` returns a known scheme for exactly those strings that, with their letters in
-- lower case, are its `to_string`.
pub string_to_scheme_iff :
    (s : Bytes) (x : Scheme) → IsKnown x → (string_to_scheme s ≡ x) ↔ (map to_lower s ≡ to_string x)
string_to_scheme_iff s x known = (
  λ e. known_name s x known (subst (Names s) e (string_to_scheme-Names s)),
  λ e. sym (string_to_scheme-map s) ∙ ap string_to_scheme e ∙ string_to_scheme-to_string x,
)
