-- ===== src/Url/Segments.antt =====
-- `segments_encoded`: segments_encoded.hpp, impl/segments_encoded.hpp and impl/segments_encoded.ipp, for one
-- segment at a time. An iterator is its index.
use boost_url.Base.{
  ℕ, ◌+◌, ◌-◌, Option, none, some, [], ◌==◌, if◌then◌else◌, Bytes, Result, undefined, err,
}
use boost_url.Chars.{pchars}
use boost_url.Url.{Url}
use boost_url.Url.Iter.{enc_iter}
use boost_url.Url.Path.Edit.{insert_segments, PathIter}
use mathlib.Core.Option

-- `enc_segs_iter` over one segment, or none.
unfoldable pub enc_segs_iter : Option Bytes → PathIter
unfolding enc_iter
enc_segs_iter s0 = record {
  iter = record (enc_iter pchars b'/' (Option.map (λ s. (s, [])) s0)) { next = λ _. none };
  front = elim s0 [ none ↦ [] | some s ↦ s ];
}

-- `insert(before, s)`
unfoldable pub insert_segment : ℕ → Bytes → Url → Result Url
unfolding insert_segments enc_segs_iter
insert_segment before s = insert_segments 2 before before (enc_segs_iter (some s)) none

-- `erase(first, last)`
unfoldable pub erase_segments : ℕ → ℕ → Url → Result Url
unfolding insert_segments enc_segs_iter
erase_segments first last = insert_segments 2 first last (enc_segs_iter none) none

-- `replace(pos, s)`
unfoldable pub replace_segment : ℕ → Bytes → Url → Result Url
unfolding insert_segments enc_segs_iter
replace_segment at s = insert_segments 2 at (at + 1) (enc_segs_iter (some s)) none

unfoldable pub clear_segments : Url → Result Url
unfolding erase_segments
clear_segments u = erase_segments 0 u.nseg_ u

unfoldable pub push_back_segment : Bytes → Url → Result Url
unfolding insert_segment
push_back_segment s u = insert_segment u.nseg_ s u

-- The source asserts that there is a segment.
unfoldable pub pop_back_segment : Url → Result Url
unfolding erase_segments
pop_back_segment u = if u.nseg_ == 0 then err undefined else erase_segments (u.nseg_ - 1) u.nseg_ u
