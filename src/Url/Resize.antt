-- ===== src/Url/Resize.antt =====
-- `resize_impl` and `shrink_impl` of impl/url_base.ipp, on a range [first, last) of parts.
use boost_url.Base.{
  ℕ, ◌+◌, ◌-◌, ◌&&◌, ◌++◌, ltb, leb, ◌==◌, if◌then◌else◌, length, take, drop, replicate, Result,
  length_error, ok, err,
}
use boost_url.Url.{
  id_end, pos_add, pos_sub, max_size, offset, size, len_range, adjust, collapse, put, Url,
}

-- `shrink_impl`: `memmove` takes the characters from `pos` on to `pos - n`; `s_[size()] = '\0'`
-- ends the buffer at its new size.
unfoldable pub shrink_range : ℕ → ℕ → ℕ → Url → Url
shrink_range first last new_len u =
    let n = len_range u first last - new_len in
    let pos = offset u last in
    let v = put (pos - n) (drop pos u.chars) u in
    record v {
      chars = take (length u.chars - n) v.chars;
      offset_ = adjust last id_end (pos_sub 0 n) (collapse first last (pos_sub pos n) v.offset_);
    }

-- The growing branch: `memmove` takes the characters from `pos` on to `pos + n`. `reserve` gives
-- `n` more bytes, whose content is not specified (here 0). It throws where the result would be too
-- large.
unfoldable pub grow_range : ℕ → ℕ → ℕ → Url → Result Url
grow_range first last new_len u =
    let n = new_len - len_range u first last in
    let pos = offset u last in
    let v = put (pos + n) (drop pos u.chars) (record u { chars = u.chars ++ replicate n 0 }) in
    if ltb max_size (size u + n)
    then err length_error
    else ok (record v {
      offset_ = adjust last id_end n (collapse first last (pos_add pos n) v.offset_);
    })

unfoldable pub resize_range : ℕ → ℕ → ℕ → Url → Result Url
resize_range first last new_len u =
    let n0 = len_range u first last in
    if new_len == 0 && n0 == 0
    then ok u
    else if leb new_len n0
    then ok (shrink_range first last new_len u)
    else grow_range first last new_len u

unfoldable pub resize_part : ℕ → ℕ → Url → Result Url
unfolding resize_range
resize_part id = resize_range id (id + 1)

unfoldable pub shrink_part : ℕ → ℕ → Url → Url
unfolding shrink_range
shrink_part id = shrink_range id (id + 1)
