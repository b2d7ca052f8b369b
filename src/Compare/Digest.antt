-- ===== src/Compare/Digest.antt =====
-- The digests of plain and of percent-encoded strings: `fnv_1a` of detail/normalize.hpp for 64 bits, and
-- detail/impl/normalize.ipp.
use boost_url.Base.{
  ℕ, zero, suc, ◌+◌, ◌-◌, ◌*◌, ◌%◌, ◌^◌, ◌≤◌, ◌<◌, ◌≡◌, refl, sym, ap, ◌∙◌, Option, none, some, [],
  ◌∷◌, arith, ltb, if◌then◌else◌, Bytes, length, All,
}
use boost_url.Base.Integers.{pos}
use boost_url.Chars.{to_lower}
use boost_url.Compare.{pop_encoded_front, compare_encoded}
use boost_url.Compare.Laws.{Reads-cons, Reads-nil, Reads-length, Reads}
use boost_url.Compare.Zero.{compare_encoded_zero}
use Prim.Native.Nat.{bit_xor}

-- A `char` converted to `size_t`: from 128 on, a byte stands for a negative number.
abbrev as_size : ℕ → ℕ
as_size c = if ltb c 128 then c else c + 2 ^ 64 - 256

-- `fnv_1a(salt)`: the state of a hasher.
abbrev pub fnv_1a : ℕ → ℕ
fnv_1a salt = (0xcbf29ce484222325 + salt) % 2 ^ 64

-- `put(char)`
unfoldable pub put_char : ℕ → ℕ → ℕ
put_char hash c = bit_xor hash (as_size c) * 0x100000001b3 % 2 ^ 64

-- The loop over a string, with what is done to each `char`.
unfoldable pub digest_by : (ℕ → ℕ) → ℕ → Bytes → ℕ
unfolding put_char
digest_by f hash [] = hash
digest_by f hash (c ∷ s) = digest_by f (put_char hash (f c)) s

-- `put(string_view)`
unfoldable pub put_all : ℕ → Bytes → ℕ
unfolding digest_by
put_all = digest_by (λ c. c)

unfoldable pub ci_digest : ℕ → Bytes → ℕ
unfolding digest_by to_lower
ci_digest = digest_by to_lower

unfoldable pub digest_loop : (ℕ → ℕ) → ℕ → ℕ → Bytes → Option ℕ
unfolding pop_encoded_front put_char
digest_loop f fuel hash [] = some hash
digest_loop f zero hash (c ∷ s) = none
digest_loop f (suc fuel) hash (c ∷ s) = elim (pop_encoded_front c s) [
  | none ↦ none
  | some (b, rest) ↦ digest_loop f fuel (put_char hash (f b)) rest
]

-- A round takes a character at least, so the size of the string is enough fuel.
unfoldable pub digest_encoded : ℕ → Bytes → Option ℕ
unfolding digest_loop
digest_encoded hash s = digest_loop (λ c. c) (length s) hash s

unfoldable pub ci_digest_encoded : ℕ → Bytes → Option ℕ
unfolding digest_loop to_lower
ci_digest_encoded hash s = digest_loop to_lower (length s) hash s

digest_loop-Reads :
    (f : ℕ → ℕ) (fuel hash : ℕ) (x a : Bytes)
    → Reads x a
    → length a ≤ fuel
    → digest_loop f fuel hash x ≡ some (digest_by f hash a)
unfolding digest_loop
digest_loop-Reads f fuel hash [] a r le = rw (Reads-nil a r) (unfold digest_by in refl)
digest_loop-Reads f zero hash (c ∷ s) a r le =
    let (a0, rest, more, p, e, r') = Reads-cons c s a r in absurd (omega (arith, le, ap length e))
digest_loop-Reads f (suc fuel) hash (c ∷ s) a r le =
    let (a0, rest, more, p, e, r') = Reads-cons c s a r in
    rw (e, digest_loop, p)
      (digest_loop-Reads f fuel (put_char hash (f a0)) rest more r' (omega (arith, le, ap length e))
        ∙ unfold digest_by in refl)

-- For percent-encodings of two byte strings for which `compare_encoded` returns 0, `digest_encoded` ends
-- and returns one number, the digest of the bytes; `ci_digest_encoded` of an encoding ends with what
-- `ci_digest` returns on the bytes.
pub digest_encoded-compare_encoded :
    (hash : ℕ) (x y a b : Bytes)
    → Reads x a
    → Reads y b
    → All (λ c. c < 256) a
    → All (λ c. c < 256) b
    → compare_encoded x y ≡ some (pos 0)
    → (digest_encoded hash x ≡ some (put_all hash a))
      × (digest_encoded hash y ≡ some (put_all hash a))
      × (ci_digest_encoded hash x ≡ some (ci_digest hash a))
unfolding digest_encoded ci_digest_encoded put_all ci_digest
digest_encoded-compare_encoded hash x y a b r q h k zero' =
    let same : a ≡ b = (compare_encoded_zero x y a b r q h k).0 zero' in
    (
      digest_loop-Reads (λ c. c) (length x) hash x a r (Reads-length r),
      digest_loop-Reads (λ c. c) (length y) hash y b q (Reads-length q)
          ∙ ap (λ t. some (digest_by (λ c. c) hash t)) (sym same),
      digest_loop-Reads to_lower (length x) hash x a r (Reads-length r),
    )
