-- ===== src/Tests/Query.antt =====
-- The query setters, on "http://u@h:80/p?q#f".
use boost_url.Base.{
  ℕ, ◌+◌, ◌≡◌, refl, inr, false, [], ◌∷◌, arith, Bytes, codes, length, ◌>>=◌, Result, err, ok,
}
use boost_url.Chars.{query_chars}
use boost_url.Pct.Encode.{pct_encode_bytes, pct_encode, pct_encode_to_string}
use boost_url.Pct.Validate.{judge, validate_in_set}
use boost_url.Tests.Sample.{cut, sample, sample-IsValid}
use boost_url.Url.{id_query, len_range, get, collapse, Url}
use boost_url.Url.Fragment.{encode_opts}
use boost_url.Url.Iter.Measured.{seps}
use boost_url.Url.Query.{plain_query_iter, insert_params, set_query, set_encoded_query}
use boost_url.Url.Query.Set.{set_query_lem}
use boost_url.Url.Replace.{Replaced}
use boost_url.Url.Resize.{shrink_range}

abbrev pub left_of : Result Url → Bytes × ℕ
left_of (ok u) = (u.chars, u.nparam_)
left_of (err _) = ([], 0)

query_run :
    (left_of (set_query (codes "a b&c") sample) ≡ (codes "http://u@h:80/p?a%20b&c#f", 2))
    × (left_of (set_encoded_query (codes "k=v") sample) ≡ (codes "http://u@h:80/p?k=v#f", 1))
    × (left_of (set_query [] sample) ≡ (codes "http://u@h:80/p?#f", 0))
    × (left_of (set_query [] sample >>= set_query (codes "x")) ≡ (codes "http://u@h:80/p?x?#f", 1))
    × (left_of (insert_params 9 1 1 (plain_query_iter (codes "x&y")) false sample)
        ≡ (codes "http://u@h:80/p?q&x&y#f", 3))
    × (left_of (insert_params 9 0 0 (plain_query_iter (codes "x")) false sample)
        ≡ (codes "http://u@h:80/p?x?q#f", 2))
unfolding set_query set_encoded_query cut pct_encode pct_encode_bytes query_chars validate_in_set
    judge shrink_range collapse len_range
query_run = (refl, refl, refl, refl, refl, refl)

set_query_lem_example :
    (v : Url) × (set_query (codes "a b&c") sample ≡ ok v)
    × Replaced sample id_query
        (b'?' ∷ pct_encode_to_string (codes "a b&c") query_chars encode_opts)
        v
    × (v.nparam_ ≡ 1 + seps b'&' (codes "a b&c"))
    × (v.decoded_ id_query ≡ length (codes "a b&c"))
set_query_lem_example =
    set_query_lem b'a' (codes " b&c") sample sample-IsValid
      (inr (omega arith, unfold get cut in λ e. cc))
      (unfold cut pct_encode_bytes query_chars in omega arith)
