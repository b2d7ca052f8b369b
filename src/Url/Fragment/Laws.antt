-- ===== src/Url/Fragment/Laws.antt =====
-- The fragment setters replace the fragment, and nothing else.
use boost_url.Base.{◌+◌, ◌-◌, ◌≡◌, refl, [], ◌∷◌, arith, Bytes, length, ok}
use boost_url.Chars.{fragment_chars}
use boost_url.Pct.Encode.{pct_encode_bytes, pct_encode_to_string}
use boost_url.Pct.Exact.{pct_encode_to_string-exact}
use boost_url.Url.{id_query, id_frag, id_end, offset, put, set_decoded, Url}
use boost_url.Url.Fragment.{
  encode_opts, set_fragment_impl, remove_fragment, set_fragment, remove_query,
}
use boost_url.Url.Frame.{resize_range-Spliced, IsValid}
use boost_url.Url.Replace.{Fits, Replaced, Replaced-rest, fill-Replaced, resize_zero-Replaced}
use boost_url.Url.Resize.{resize_part}

-- `set_fragment` never throws while the result fits. The fragment is then '#' and the encoding of
-- the argument, every other part keeps its characters, the table stays valid, and the decoded
-- size is the argument's.
pub set_fragment_lem :
    (s : Bytes) (u : Url)
    → IsValid u
    → Fits u id_frag id_end (pct_encode_bytes fragment_chars encode_opts s + 1)
    → (v : Url) × (set_fragment s u ≡ ok v)
      × Replaced u id_frag (b'#' ∷ pct_encode_to_string s fragment_chars encode_opts) v
      × (v.decoded_ id_frag ≡ length s)
unfolding set_fragment set_fragment_impl resize_part
set_fragment_lem s u valid fits =
    let n = pct_encode_bytes fragment_chars encode_opts s in
    let enc = pct_encode_to_string s fragment_chars encode_opts in
    let size_enc : length enc ≡ n = (pct_encode_to_string-exact fragment_chars encode_opts s).1 in
    let (old, v, e, size_old, spliced) =
      resize_range-Spliced id_frag id_end (n + 1) valid (omega arith) (omega arith) fits in
    let filled =
      fill-Replaced id_frag (b'#' ∷ []) enc valid (omega arith) spliced (omega arith)
        (omega arith) in
    let stop = spliced.after id_end (omega arith) (omega arith) in
    let here = spliced.before id_frag (omega arith) in
    let room : offset v id_end - (offset v id_frag + 1) ≡ n = omega arith in
    (
      set_decoded id_frag (length s)
          (put (offset v id_frag + 1) enc (put (offset v id_frag) (b'#' ∷ []) v)),
      rw (e, room) (unfold pct_encode_to_string in refl),
      Replaced-rest u _ id_frag _ _ _ _ _ _ _ _ filled,
      refl,
    )

-- `remove_fragment` and `remove_query` never throw. They empty their part and reset its decoded
-- size, and `remove_query` the number of parameters; every other part keeps its characters and the
-- table stays valid.
remove_fragment_query_lem :
    (u : Url)
    → IsValid u
    → ((v : Url) × (remove_fragment u ≡ ok v) × Replaced u id_frag [] v × (v.decoded_ id_frag ≡ 0))
      × ((v : Url) × (remove_query u ≡ ok v)
          × Replaced u id_query [] v
          × (v.decoded_ id_query ≡ 0)
          × (v.nparam_ ≡ 0))
unfolding remove_fragment remove_query
remove_fragment_query_lem u valid =
    let (v, e, r) = resize_zero-Replaced u id_frag valid (omega arith) in
    let (w, f, q) = resize_zero-Replaced u id_query valid (omega arith) in
    (
      (set_decoded id_frag 0 v, rw e, Replaced-rest u _ id_frag _ _ _ _ _ _ _ _ r, refl),
      (
        set_decoded id_query 0 (record w { nparam_ = 0 }),
        rw f,
        Replaced-rest u _ id_query _ _ _ _ _ _ _ _ q,
        refl,
        refl,
      ),
    )
