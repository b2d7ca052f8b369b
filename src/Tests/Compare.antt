-- ===== src/Tests/Compare.antt =====
-- Instances of the theorems on comparisons, and test runs.
use boost_url.Base.{◌≡◌, refl, some, [], ◌∷◌, arith, codes}
use boost_url.Base.Integers.{negsuc}
use boost_url.Chars.{hexdig_value}
use boost_url.Compare.{
  compare_chars, compare, ci_compare, pop_encoded_front, compare_rest, compare_loop,
  compare_encoded, ci_compare_encoded,
}
use boost_url.Compare.Digest.{
  fnv_1a, put_all, ci_digest, digest_encoded, ci_digest_encoded, digest_encoded-compare_encoded,
}
use boost_url.Compare.Laws.{compare_encoded-Reads, at_end, char, octet}
use boost_url.Pct.Decode.{decode_hex}
use boost_url.Pct.View.{digits_behind}

compare_run : compare_encoded (codes "a%2fb") (codes "a/c") ≡ some (negsuc 0)
unfolding compare_encoded compare_loop compare_chars pop_encoded_front digits_behind decode_hex
    hexdig_value
compare_run = refl

compare_encoded-Reads_example :
    (compare_encoded (b'a' ∷ b'%' ∷ b'2' ∷ b'f' ∷ []) (b'A' ∷ b'/' ∷ [])
      ≡ some (compare (b'a' ∷ decode_hex b'2' b'f' ∷ []) (b'A' ∷ b'/' ∷ [])))
    × (ci_compare_encoded (b'a' ∷ b'%' ∷ b'2' ∷ b'f' ∷ []) (b'A' ∷ b'/' ∷ [])
        ≡ some (ci_compare (b'a' ∷ decode_hex b'2' b'f' ∷ []) (b'A' ∷ b'/' ∷ [])))
compare_encoded-Reads_example =
    compare_encoded-Reads (b'a' ∷ b'%' ∷ b'2' ∷ b'f' ∷ []) (b'A' ∷ b'/' ∷ [])
      (b'a' ∷ decode_hex b'2' b'f' ∷ []) (b'A' ∷ b'/' ∷ []) (char refl (octet b'2' b'f' at_end))
      (char refl (char refl at_end))

digest_encoded-compare_encoded_example :
    (digest_encoded (fnv_1a 0) (b'%' ∷ b'4' ∷ b'1' ∷ [])
      ≡ some (put_all (fnv_1a 0) (decode_hex b'4' b'1' ∷ [])))
    × (digest_encoded (fnv_1a 0) (b'A' ∷ [])
        ≡ some (put_all (fnv_1a 0) (decode_hex b'4' b'1' ∷ [])))
    × (ci_digest_encoded (fnv_1a 0) (b'%' ∷ b'4' ∷ b'1' ∷ [])
        ≡ some (ci_digest (fnv_1a 0) (decode_hex b'4' b'1' ∷ [])))
digest_encoded-compare_encoded_example =
    digest_encoded-compare_encoded (fnv_1a 0) (b'%' ∷ b'4' ∷ b'1' ∷ []) (b'A' ∷ [])
      (decode_hex b'4' b'1' ∷ []) (b'A' ∷ []) (octet b'4' b'1' at_end) (char refl at_end)
      (unfold decode_hex hexdig_value in (omega arith, tt)) (omega arith, tt)
      (unfold compare_encoded compare_loop compare_chars compare_rest pop_encoded_front
          digits_behind decode_hex hexdig_value in
        refl)
