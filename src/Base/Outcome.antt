-- ===== src/Base/Outcome.antt =====
-- `result<T>` of the library: a value or an error code.

-- The codes of `urls::error` and `grammar::error` that the modelled code returns, and the two
-- exceptions that it throws.
pub data Error : Type 0 where
  illegal_null illegal_reserved_char non_canonical : Error
  bad_pct_hexdig incomplete_pct_encoding missing_pct_hexdig no_space not_a_base : Error
  need_more mismatch range_end leftover invalid overflow syntax : Error
  length_error invalid_argument : Error
  -- Not a code: the source reads a value that is not there.
  undefined : Error
  -- A code that depends on bytes that were never written.
  unwritten : Error

pub data Result {ℓ} (T : Type ℓ) : Type ℓ where
  err : Error → Result T
  ok : T → Result T

-- `if(! rv) return rv.error();`
infixl 5 ◌>>=◌
abbrev pub ◌>>=◌ {ℓ κ} : {S : Type ℓ} {T : Type κ} → Result S → (S → Result T) → Result T
rv >>= next = elim rv [ err code ↦ err code | ok value ↦ next value ]

-- A result that is no error has the property.
abbrev pub Holds {ℓ κ} : {A : Type ℓ} → (A → Type κ) → Result A → Type κ
Holds P (err why) = Unit
Holds P (ok a) = P a

pub Holds-bind {ℓ κ ι μ} :
    {A : Type ℓ} {B : Type κ} (P : A → Type ι) (Q : B → Type μ) (r : Result A) (f : A → Result B)
    → Holds P r
    → ((a : A) → P a → Holds Q (f a))
    → Holds Q (r >>= f)
Holds-bind P Q (err why) f h k = tt
Holds-bind P Q (ok a) f h k = k a h

pub Holds-map {ℓ ι κ} :
    {A : Type ℓ} (P : A → Type ι) (Q : A → Type κ) (r : Result A)
    → Holds P r
    → ((a : A) → P a → Holds Q (ok a))
    → Holds Q r
Holds-map P Q (err why) h k = tt
Holds-map P Q (ok a) h k = k a h
