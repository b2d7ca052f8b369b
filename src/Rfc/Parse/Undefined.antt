-- ===== src/Rfc/Parse/Undefined.antt =====
-- Where `parse_uri_reference` reads the value of a result that is an error.
use boost_url.Base.{
  ℕ, ◌≤◌, ◌≡◌, refl, false, ◌∷◌, arith, ltb, Bytes, length, Error, mismatch, undefined, err,
}
use boost_url.Chars.{alpha_chars}
use boost_url.Grammar.{Rule, delim_rule, parse_all, ◌>>=◌, ◌>>◌, give}
use boost_url.Rfc.Parse.{
  no_match, is_lost, variant_rule, uri_reference_rule, parse_sized, parse_uri_reference,
}
use boost_url.Rfc.PctEncoded.{hex_pair}
use boost_url.Rfc.Query.{query_part_rule, fragment_part_rule}
use boost_url.Rfc.Uri.{
  hier_part_rule, with_hier_part, with_query, with_frag, scheme_part_rule, uri_parts, uri_rule,
  relative_ref_rule,
}
use boost_url.Rfc.Uri.Undefined.{bind-err, made-err, relative_ref_rule_undefined}
use boost_url.Rfc.Userinfo.{scheme_rule}
use boost_url.Url.{max_size, Url}
use boost_url.Url.Apply.{new_impl, apply_scheme}

abbrev broken : ℕ → ℕ → Bytes → Bytes
broken z y s = b'/' ∷ b'%' ∷ z ∷ y ∷ s

no_scheme : (s : Bytes) → scheme_rule (b'/' ∷ s) ≡ err mismatch
unfolding scheme_rule alpha_chars
no_scheme s = refl

scheme_part_rule-slash : (s : Bytes) → scheme_part_rule (b'/' ∷ s) ≡ err mismatch
unfolding scheme_part_rule
scheme_part_rule-slash s =
    bind-err scheme_rule (λ v. delim_rule b':' >> give v) (b'/' ∷ s) mismatch (no_scheme s)

uri_rule-slash : (s : Bytes) → uri_rule (b'/' ∷ s) ≡ err mismatch
unfolding uri_rule uri_parts
uri_rule-slash s = made-err uri_parts (b'/' ∷ s) mismatch (
    bind-err scheme_part_rule
      (λ v. hier_part_rule >>= λ h. query_part_rule >>= λ q. fragment_part_rule >>= λ f.
        give (with_frag f (with_query q (with_hier_part h (apply_scheme v.scheme new_impl)))))
      (b'/' ∷ s) mismatch (scheme_part_rule-slash s))

variant_rule-both {ℓ} :
    {T : Type ℓ} (r0 r1 : Rule T) (s : Bytes) (why0 why1 : Error)
    → r0 s ≡ err why0
    → is_lost why0 ≡ false
    → r1 s ≡ err why1
    → variant_rule r0 r1 s ≡ err (no_match why1)
unfolding variant_rule
variant_rule-both r0 r1 s why0 why1 e k f = rw (e, variant_rule, k, f) refl

parse_sized-err :
    (rule : Rule Url) (s : Bytes) (why : Error)
    → length s ≤ max_size
    → rule s ≡ err why
    → parse_sized rule s ≡ err why
unfolding parse_all
parse_sized-err rule s why fits e =
    let small : ltb max_size (length s) ≡ false = ground arith in rw (small, e, parse_all) refl

-- For a string that is a '/' and a broken escape, and whatever follows, `parse_uri_reference` reads the
-- value of a result that is an error, where `uri_rule` reports a mismatch: the two characters behind the
-- '%' are not both hex digits, and the string is not longer than `max_size`.
pub parse_uri_reference_undefined :
    (z y : ℕ) (s : Bytes)
    → hex_pair z y ≡ false
    → length (broken z y s) ≤ max_size
    → (uri_rule (broken z y s) ≡ err mismatch)
      × (parse_uri_reference (broken z y s) ≡ err undefined)
unfolding parse_uri_reference uri_reference_rule
parse_uri_reference_undefined z y s h fits =
    let mismatched = uri_rule-slash (b'%' ∷ z ∷ y ∷ s) in
    (
      mismatched,
      parse_sized-err uri_reference_rule (broken z y s) undefined fits (
          variant_rule-both uri_rule relative_ref_rule (broken z y s) mismatch undefined mismatched
            refl ((relative_ref_rule_undefined z y s h).1)),
    )
