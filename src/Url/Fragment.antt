-- ===== src/Url/Fragment.antt =====
-- The fragment setters and `remove_query` of impl/url_base.ipp.
pub mod Laws
use boost_url.Base.{ℕ, ◌+◌, ◌-◌, false, [], ◌∷◌, Bytes, length, ◌>>=◌, Result, ok}
use boost_url.Chars.{CharSet, fragment_chars}
use boost_url.Pct.Encode.{pct_encode_bytes, pct_encode, PctEncodeOpts}
use boost_url.Url.{id_query, id_frag, id_end, offset, put, set_decoded, Url}
use boost_url.Url.Resize.{resize_part}

-- The default options.
abbrev pub encode_opts : PctEncodeOpts
encode_opts = record { space_to_plus = false }

-- `pct_encode(dest, end, s, cs)` with `dest` at `at` and `end` at `stop`.
abbrev pub put_encoded : ℕ → ℕ → Bytes → CharSet → Url → Url
put_encoded at stop s cs u = put at (pct_encode (stop - at) s cs encode_opts) u

-- The result's `dest` is one behind the offset of the fragment.
unfoldable pub set_fragment_impl : ℕ → Url → Result Url
unfolding resize_part
set_fragment_impl n u = do
  v ← resize_part id_frag (n + 1) u
  ok (put (offset v id_frag) (b'#' ∷ []) v)

unfoldable pub remove_fragment : Url → Result Url
unfolding resize_part
remove_fragment u = do v ← resize_part id_frag 0 u; ok (set_decoded id_frag 0 v)

unfoldable pub set_fragment : Bytes → Url → Result Url
unfolding set_fragment_impl
set_fragment s u = do
  v ← set_fragment_impl (pct_encode_bytes fragment_chars encode_opts s) u
  ok (
      set_decoded id_frag (length s)
        (put_encoded (offset v id_frag + 1) (offset v id_end) s fragment_chars v))

unfoldable pub remove_query : Url → Result Url
unfolding resize_part
remove_query u = do
  v ← resize_part id_query 0 u
  ok (set_decoded id_query 0 (record v { nparam_ = 0 }))
