-- ===== src/Url/Path/Edit/Set.antt =====
-- What `set_path` does to the parts of a URL.
use boost_url.Base.{
  ℕ, suc, ◌+◌, ◌-◌, ◌≤◌, ◌≡◌, refl, sym, ap, ◌∙◌, ◌⊎◌, inl, inr, Bool, true, false, ◌&&◌, ◌||◌,
  Option, some, [], ◌∷◌, ◌++◌, append-nil, arith, ltb, ◌==◌, Bool-cases, ==_iff, Bytes, codes,
  ge→ltb, length, drop, is_empty, length-append, length-drop, ok,
}
use boost_url.Chars.{pchars, segment_chars, path_chars}
use boost_url.DotSegments.{starts_with}
use boost_url.Pct.Encode.{pct_encode_bytes, pct_encode_to_string}
use boost_url.Pct.Exact.{length-encode_all, pct_encode_to_string-exact}
use boost_url.Url.{
  id_path, id_query, id_end, pos_sub, max_size, offset, size, len, get, set_size, put, Url,
}
use boost_url.Url.Fragment.{encode_opts}
use boost_url.Url.Frame.{IsValid}
use boost_url.Url.Iter.{to_sep, plain_iter, measure, copy_loop}
use boost_url.Url.Iter.Measured.{
  seps, to_sep-IsRest, to_sep-seps, length-to_sep, encoded-to_sep, size-plain, measure_loop-plain,
  copy_loop-plain,
}
use boost_url.Url.Parts.{len-eq, length-get}
use boost_url.Url.Path.{path_prefix, clean_path, segment}
use boost_url.Url.Path.Edit.{
  drop_slash, first_of_path, plain_path_iter, edit_segments, measure_path, prefix_size, prefix_text,
  suffix_text, becomes_absolute, insert_segments, set_path,
}
use boost_url.Url.Path.Edit.Prefix.{
  prefix_size-Prefixed, Prefixed-small, encoded_path_of, slash_kept, prefix_text-Stands, Stands,
}
use boost_url.Url.Replace.{Fits, Replaced, Edited-Replaced, Replaced-rest}
use boost_url.Url.Resized.{edited, edited-put}
use boost_url.Url.View.{has_authority}
use mathlib.Core.Path.{ap₂}

-- A path with no segments has nothing behind its prefix.
abbrev pub PathCounted : Url → Type 0
PathCounted u = (1 ≤ u.nseg_) ⊎ (clean_path (get u id_path) ≡ [])

path_prefix-length : (s : Bytes) → path_prefix s ≤ length s
unfolding path_prefix
path_prefix-length [] = omega arith
path_prefix-length (c ∷ []) = ground arith
path_prefix-length (c ∷ d ∷ []) = ground arith
path_prefix-length (c ∷ d ∷ e ∷ s) = ground arith

path_prefix-all : (s : Bytes) → clean_path s ≡ [] → path_prefix s ≡ length s
unfolding clean_path
path_prefix-all s e =
    let nothing : length (drop (path_prefix s) s) ≡ 0 = ap length e in
    omega (arith, nothing, length-drop (path_prefix s) s, path_prefix-length s)

-- `edit_segments` of all segments, with its two ends known.
edit_segments-edited :
    (u : Url) (n k : ℕ) (valid : IsValid u) (fits : Fits u id_path id_query n)
    → PathCounted u
    → 1 ≤ n
    → (m : ℕ) × (m_is : m ≡ n) × (edit_segments 0 u.nseg_ n k u
        ≡ ok (
          offset u id_path,
          record (edited u id_path n m valid (omega arith) fits m_is) { nseg_ = k },
        ))
unfolding edit_segments segment set_size
edit_segments-edited u n k valid fits counted some_chars =
    let p = offset u id_path in
    let q = offset u id_query in
    let up = valid.ascend id_path id_query (omega arith) (omega arith) in
    let top = valid.ascend id_query id_end (omega arith) (omega arith) in
    let size_path = length-get valid id_path (omega arith) in
    let small : ltb max_size (size u + n - (q - p)) ≡ false =
      ge→ltb {a = max_size} (omega (arith, fits, up)) in
    let some_url : (size u + n - (q - p) == 0) ≡ false = ground (arith, some_chars, up, top) in
    let count : u.nseg_ + k - (u.nseg_ - 0) ≡ k = omega arith in
    let m_is : pos_sub (len u id_path) (pos_sub (q - p) n) ≡ n =
      omega (arith, len-eq valid id_path (omega arith), fits, up, valid.small, top) in
    (
      pos_sub (len u id_path) (pos_sub (q - p) n),
      m_is,
      elim (Bool-cases (u.nseg_ == 0)) [
        | inl empty ↦
            let whole : p + path_prefix (get u id_path) ≡ q = elim counted [
              | inl some_segments ↦ absurd (ground (arith, some_segments, empty))
              | inr clean ↦ omega (arith, size_path, up, path_prefix-all (get u id_path) clean)
            ] in
            rw (empty, whole, some_url, small, count) refl
        | inr some_segments ↦
            let here : (u.nseg_ == u.nseg_) ≡ true = (==_iff u.nseg_ u.nseg_).1 refl in
            let inside : (k == 0 && ltb u.nseg_ u.nseg_) ≡ false = ground arith in
            rw (some_segments, here, inside, some_url, small, count) refl
      ],
    )

keeps_slash : (c : ℕ) → (c == b'/') ≡ false → pchars c ≡ path_chars c
unfolding path_chars segment_chars
keeps_slash c other =
    let other' : (b'/' == c) ≡ false = ground (arith, other) in
    elim (Bool-cases (pchars c)) [
      | inl kept ↦ rw kept refl
      | inr escaped ↦ rw (escaped, other') refl
    ]

-- What `measure_path` counts for a plain string that is not empty.
module _ (c : ℕ) (s : Bytes) where
  abbrev body : Bytes
  body = drop_slash (c ∷ s)

  abbrev place : Option (Bytes × Bytes)
  place = some (to_sep b'/' body)

  length-body : length body ≤ length (c ∷ s)
  unfolding starts_with
  length-body = ground arith

  measure_path-plain :
      measure_path (length (c ∷ s) + 1) (plain_path_iter (c ∷ s)).iter
      ≡ ok (length (encoded_path_of body), suc (seps b'/' body))
  unfolding measure_path measure plain_path_iter first_of_path plain_iter
  measure_path-plain =
      let front = (to_sep b'/' body).0 in
      let rest = (to_sep b'/' body).1 in
      let loop =
        measure_loop-plain pchars path_chars b'/' slash_kept keeps_slash place (length (c ∷ s) + 1)
          (pct_encode_bytes pchars encode_opts front) 0 rest (to_sep-IsRest b'/' body)
          (omega (arith, length-to_sep b'/' body, length-body)) in
      rw loop (
        ap₂ (λ n k. ok (n, k))
          (omega (
            arith,
            size-plain pchars path_chars b'/' slash_kept keeps_slash body,
            ap length (encoded-to_sep b'/' path_chars body),
            length-append (encoded_path_of front) (encoded_path_of rest),
          ))
          (omega (arith, to_sep-seps b'/' body)))

  copied_path :
      (room : ℕ)
      → length (encoded_path_of body) ≤ room
      → copy_loop b'/'
          (suc (seps b'/' body))
          (plain_path_iter (c ∷ s)).iter
          (plain_path_iter (c ∷ s)).iter.place
          room
        ≡ encoded_path_of body
  unfolding plain_path_iter first_of_path
  copied_path room le =
      copy_loop-plain pchars path_chars b'/' slash_kept keeps_slash place room body le

  -- The path is absolute as the string is, where an authority does not decide.
  abbrev absolute : Url → Bool
  absolute u = becomes_absolute (some (starts_with (codes "/") (c ∷ s))) u

  fixed :
      (u : Url)
      → (has_authority u ≡ true) ⊎ ((absolute u ≡ true) ⊎ (is_empty (to_sep b'/' body).0 ≡ false))
  unfolding becomes_absolute starts_with to_sep
  fixed u = elim (Bool-cases (has_authority u)) [
    | inl authority ↦ inl authority
    | inr none' ↦ elim (Bool-cases (c == b'/')) [
      | inl slash ↦ inr (inl (rw (none', slash) refl))
      | inr other ↦ inr (inr (rw (other, other) refl))
    ]
  ]

  same_absolute :
      (u : Url)
      → (has_authority u || absolute u) ≡ (has_authority u || starts_with (codes "/") (c ∷ s))
  unfolding becomes_absolute starts_with
  same_absolute u = elim (Bool-cases (has_authority u)) [
    | inl authority ↦ rw authority refl
    | inr none' ↦ rw none' refl
  ]

suffix_text-all : (k old : ℕ) → suffix_text 0 old k old ≡ []
unfolding suffix_text
suffix_text-all k old = ground arith

-- `set_path` of a string that is not empty.
pub set_path_lem :
    (c : ℕ) (s : Bytes) (u : Url)
    → IsValid u
    → PathCounted u
    → Fits u id_path id_query (3 + pct_encode_bytes path_chars encode_opts (drop_slash (c ∷ s)))
    → (p : Bytes) × (v : Url) × (set_path (c ∷ s) u ≡ ok v)
      × Replaced u id_path p v
      × (v.nseg_ ≡ suc (seps b'/' (drop_slash (c ∷ s))))
      × Stands u
          (starts_with (codes "/") (c ∷ s))
          (pct_encode_to_string (drop_slash (c ∷ s)) path_chars encode_opts)
          p
unfolding set_path insert_segments
set_path_lem c s u valid counted fits =
    let t = drop_slash (c ∷ s) in
    let abs = absolute c s u in
    let k = suc (seps b'/' t) in
    let n = prefix_size u abs 0 k (to_sep b'/' t).0 in
    let prefixed = prefix_size-Prefixed u abs k (to_sep b'/' t).0 (omega arith) (fixed c s u) in
    let (size_prefix, stands) = prefix_text-Stands u abs t n prefixed in
    let (string, size_string) = pct_encode_to_string-exact path_chars encode_opts t in
    let path = prefix_text n ++ encoded_path_of t in
    let size_text = length-encode_all path_chars encode_opts t in
    let size_path = length-append (prefix_text n) (encoded_path_of t) in
    let small = Prefixed-small u abs k (to_sep b'/' t).0 n prefixed in
    let total = length (encoded_path_of t) + (n + 0) in
    let fits' : Fits u id_path id_query total = omega (arith, fits, small, size_text) in
    let (m, m_is, e) =
      edit_segments-edited u total k valid fits' counted
        (omega (arith, stands.some_path, size_path, size_prefix)) in
    let v = edited u id_path total m valid (omega arith) fits' m_is in
    (
      path,
      put (offset u id_path) path (record v { nseg_ = k }),
      rw
          (
            measure_path-plain c s,
            suffix_text-all k u.nseg_,
            e,
            copied_path c s (total - n) (omega arith),
            append-nil (encoded_path_of t),
          )
          refl,
      Replaced-rest u (put (offset u id_path) path v) id_path _ _ _ _ _ _ _ _ (
          Edited-Replaced id_path valid (omega arith)
            (edited-put u id_path total m valid (omega arith) fits' m_is path
              (omega (arith, size_path, size_prefix)))
            (omega (arith, fits'))),
      refl,
      record {
        clean = stands.clean ∙ sym string;
        slash = stands.slash ∙ same_absolute c s u;
        no_authority = stands.no_authority;
        no_scheme = stands.no_scheme;
        some_path = stands.some_path;
      },
    )
