-- ===== src/Url/Iter.antt =====
-- The iterators that `edit_params` and `edit_segments` take: detail/any_query_iter.hpp and
-- detail/any_path_iter.hpp, whose classes differ in the separator and the character set.
pub mod Measured
use boost_url.Base.{
  ℕ, zero, suc, ◌+◌, ◌-◌, Option, none, some, [], ◌∷◌, ◌++◌, ◌==◌, if◌then◌else◌, Bytes, length,
  ◌>>=◌, Result, invalid_argument, undefined, err, ok,
}
use boost_url.Chars.{CharSet}
use boost_url.Pct.Encode.{pct_encode_bytes, pct_encode}
use boost_url.Pct.Validate.{validate_in_set}
use boost_url.Url.Fragment.{encode_opts}
use boost_url.Url.Userinfo.{decode_opts}

-- `s.find_first_of(sep)`: the characters in front of that position, and those from there.
unfoldable pub to_sep : ℕ → Bytes → Bytes × Bytes
to_sep sep [] = ([], [])
to_sep sep (c ∷ s) = if c == sep then ([], c ∷ s) else (c ∷ (to_sep sep s).0, (to_sep sep s).1)

-- Where an iterator stands, [p_, p_ + n_) and what is behind it (none: at the end), and what a class of
-- iterators makes of an element. A copy gets the room to the end of the output.
pub record AnyIter : Type 0 where
  pub place : Option (Bytes × Bytes)
  pub next : Bytes → Option (Bytes × Bytes)
  pub size_of : Bytes → Result ℕ
  pub text_of : ℕ → Bytes → Bytes

-- `increment`
unfoldable pub increment : ℕ → Bytes → Option (Bytes × Bytes)
unfolding to_sep
increment sep [] = none
increment sep (c ∷ s) = some (to_sep sep s)

unfoldable pub plain_iter : CharSet → ℕ → Option (Bytes × Bytes) → AnyIter
unfolding increment
plain_iter allowed sep place = record {
  place = place;
  next = increment sep;
  size_of = λ t. ok (pct_encode_bytes allowed encode_opts t);
  text_of = λ room t. pct_encode room t allowed encode_opts;
}

unfoldable pub enc_iter : CharSet → ℕ → Option (Bytes × Bytes) → AnyIter
unfolding increment
enc_iter allowed sep place = record {
  place = place;
  next = increment sep;
  size_of = λ t. elim (validate_in_set allowed decode_opts t) [
    | err why ↦ err why
    | ok _ ↦ ok (length t)
  ];
  text_of = λ room t. t;
}

-- `measure`: the size and the next place, if there is an element.
unfoldable pub measure :
    AnyIter → Option (Bytes × Bytes) → Result (Option (ℕ × Option (Bytes × Bytes)))
measure it none = ok none
measure it (some (s, rest)) = do n ← it.size_of s; ok (some (n, it.next rest))

-- The loop that measures, behind a first element: the characters with a separator between, and the number
-- of elements. A round takes an element; `undefined` stands for a loop that did not end.
unfoldable pub measure_loop : ℕ → AnyIter → Option (Bytes × Bytes) → ℕ → ℕ → Result (ℕ × ℕ)
unfolding measure
measure_loop zero it place n count = err undefined
measure_loop (suc fuel) it place n count = elim (measure it place) [
  | err _ ↦ err invalid_argument
  | ok none ↦ ok (n, count + 1)
  | ok (some (k, next)) ↦ measure_loop fuel it next (n + k + 1) (count + 1)
]

-- The loop that copies `count` elements, with room for `room` characters.
unfoldable pub copy_loop : ℕ → ℕ → AnyIter → Option (Bytes × Bytes) → ℕ → Bytes
copy_loop sep zero it place room = []
copy_loop sep (suc count) it none room = []
copy_loop sep (suc count) it (some (s, rest)) room =
    let text = it.text_of room s in
    let tail = sep ∷ copy_loop sep count it (it.next rest) (room - length text - 1) in
    if count == 0 then text else text ++ tail
