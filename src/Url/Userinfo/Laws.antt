-- ===== src/Url/Userinfo/Laws.antt =====
-- The user info setter replaces the user and the password, and nothing else.
-- The characters of the two parts for an encoded user info.
use boost_url.Base.{
  ℕ, ◌+◌, ◌-◌, ◌<◌, ◌≡◌, refl, sym, ap, ◌∙◌, inl, inr, Option, none, some, [], ◌∷◌, ◌++◌,
  append-nil, arith, ◌==◌, Bool-cases, Bytes, length, take, drop, Option-cases, length-append,
  take-append-drop, length-take, length-drop, ok,
}
use boost_url.Chars.{userinfo_chars}
use boost_url.Pct.Encode.{pct_encode_bytes, pct_encode_to_string}
use boost_url.Pct.Exact.{pct_encode_to_string-exact}
use boost_url.Url.{id_user, id_pass, id_host, id_end, pos_sub, offset, get_range, split, put, Url}
use boost_url.Url.Fragment.{encode_opts}
use boost_url.Url.Frame.{resize_range-Spliced, IsValid, Spliced}
use boost_url.Url.Parts.{Spliced-Edited, Edited-put, Edited}
use boost_url.Url.Replace.{Fits}
use boost_url.Url.Shared.{Shared, Shared-decoded, Edited-Shared, split-Edited, get_range-Edited}
use boost_url.Url.Userinfo.{set_userinfo_impl, find_first_of, or_npos, split_userinfo, set_userinfo}

abbrev slashes : Bytes
slashes = b'/' ∷ b'/' ∷ []

-- The characters of the two parts for an encoded user info.
abbrev pub whole : Bytes → Bytes
whole enc = b'/' ∷ b'/' ∷ (enc ++ b'@' ∷ [])

-- Where the user ends: at the first ':', at the '@' if there is none.
abbrev pub cut_of : Bytes → Option ℕ → ℕ
cut_of enc none = length enc + 2
cut_of enc (some k) = k

abbrev Below : ℕ → Option ℕ → Type 0
Below n none = Unit
Below n (some k) = k < n

find_first_of-Below : (c : ℕ) (s : Bytes) → Below (length s) (find_first_of c s)
unfolding find_first_of
find_first_of-Below c [] = tt
find_first_of-Below c (x ∷ s) = elim (Bool-cases (x == c)) [
  | inl here ↦ rw here (omega arith)
  | inr other ↦
      let rest = find_first_of-Below c s in
      elim (Option-cases (find_first_of c s)) [
        | inl missing ↦ rw (other, missing) tt
        | inr (j, found) ↦
            rw (other, found) (let low : j < length s = rw found at rest in omega (arith, low))
      ]
]

-- What `set_userinfo_impl` and its callers write into the room for `n` characters.
fill_userinfo :
    {u v : Url} {old : Bytes} (enc : Bytes) (n : ℕ)
    → length enc ≡ n
    → IsValid u
    → Spliced u id_user id_host old v
    → length old ≡ n + 3
    → Edited u id_user id_host (whole enc) (
        put (offset v id_user + 2) enc (
          put
            (offset v id_user + (n + 2))
            (b'@' ∷ [])
            (put (offset v id_user) (b'/' ∷ b'/' ∷ []) v)))
fill_userinfo {u} {v} {old} enc n size_enc valid spliced size_old =
    let o = offset v id_user in
    let here = spliced.before id_user (omega arith) in
    let body = drop 2 old in
    let size_body : length body ≡ n + 1 = omega (arith, length-drop 2 old) in
    let first =
      Edited-put o [] (take 2 old) body slashes valid (omega arith) (omega arith)
        (Spliced-Edited spliced) (sym (take-append-drop 2 old)) (omega (arith, here))
        (sym (length-take 2 old (omega (arith, size_old)))) in
    let second =
      Edited-put (o + (n + 2)) (slashes ++ take n body) (drop n body) [] (b'@' ∷ []) valid
        (omega arith) (omega arith) first
        (ap (λ l. b'/' ∷ b'/' ∷ l)
          (sym (take-append-drop n body)
            ∙ ap (◌++◌ (take n body)) (sym (append-nil (drop n body)))))
        (omega (arith, here, length-take n body (omega arith)))
        (omega (arith, length-drop n body)) in
    let third =
      Edited-put (o + 2) slashes (take n body) (b'@' ∷ []) enc valid (omega arith) (omega arith)
        second refl (omega (arith, here))
        (omega (arith, size_enc, length-take n body (omega arith))) in
    third

-- The end of `set_userinfo`, on a URL whose user info is written.
split_userinfo-Shared :
    (u v : Url) (enc : Bytes) (n sep : ℕ) (o : Option ℕ)
    → IsValid u
    → Edited u id_user id_host (whole enc) v
    → offset v id_pass ≡ offset u id_user + (length enc + 2)
    → Fits u id_user id_host (length enc + 3)
    → Below (length (whole enc)) o
    → Shared u id_user (whole enc) (cut_of enc o) (split_userinfo n sep o v)
unfolding split_userinfo
split_userinfo-Shared u v enc n sep none valid edit at fits low =
    let size_whole : length (whole enc) ≡ length enc + 3 =
      omega (arith, length-append enc (b'@' ∷ [])) in
    Shared-decoded u _ id_user _ _ id_pass 0 (
      Shared-decoded u _ id_user _ _ id_user n (
        Edited-Shared id_user (length enc + 2) valid (omega arith) edit at (omega arith)
          (omega arith)))
split_userinfo-Shared u v enc n sep (some k) valid edit at fits low =
    let size_whole : length (whole enc) ≡ length enc + 3 =
      omega (arith, length-append enc (b'@' ∷ [])) in
    let here = edit.before id_user (omega arith) in
    let up = valid.ascend id_user id_host (omega arith) (omega arith) in
    let top = valid.ascend id_host id_end (omega arith) (omega arith) in
    let cut : offset (split id_user k v) id_pass ≡ offset u id_user + k =
      unfold split in omega (arith, here, up, top) in
    Shared-decoded u _ id_user _ _ id_pass _ (
      Shared-decoded u _ id_user _ _ id_user _ (
        Edited-Shared id_user k valid (omega arith) (split-Edited id_user k edit) cut (omega arith)
          (omega arith)))

-- The decoded sizes that are stored, with a ':' in the encoded user info and without.
abbrev pub Sizes : Bytes → Option ℕ → Url → Type 0
Sizes s none v = (v.decoded_ id_user ≡ length s) × (v.decoded_ id_pass ≡ 0)
Sizes s (some _) v =
    let sep = or_npos (find_first_of b':' s) in
    (v.decoded_ id_user ≡ pos_sub sep 1) × (v.decoded_ id_pass ≡ pos_sub (length s) sep)

split_userinfo-Sizes :
    (s : Bytes) (o : Option ℕ) (w : Url)
    → Sizes s o (split_userinfo (length s) (or_npos (find_first_of b':' s)) o w)
unfolding split_userinfo
split_userinfo-Sizes s none w = (refl, refl)
split_userinfo-Sizes s (some k) w = (refl, refl)

-- On a valid table and while the result fits, `set_userinfo` throws nothing. The user and the
-- password then share "//", the percent-encoding of the argument and '@', divided at the first ':';
-- every other part keeps its characters, and the table stays valid. The sizes that are stored
-- depend on the ':' too.
pub set_userinfo_lem :
    (s : Bytes) (u : Url)
    → IsValid u
    → Fits u id_user id_host (pct_encode_bytes userinfo_chars encode_opts s + 3)
    → (v : Url) × (set_userinfo s u ≡ ok v)
      × Shared u id_user
          (whole (pct_encode_to_string s userinfo_chars encode_opts))
          (cut_of
            (pct_encode_to_string s userinfo_chars encode_opts)
            (find_first_of b':' (whole (pct_encode_to_string s userinfo_chars encode_opts))))
          v
      × Sizes s (find_first_of b':' (whole (pct_encode_to_string s userinfo_chars encode_opts))) v
unfolding set_userinfo set_userinfo_impl
set_userinfo_lem s u valid fits =
    let n = pct_encode_bytes userinfo_chars encode_opts s in
    let enc = pct_encode_to_string s userinfo_chars encode_opts in
    let size_enc : length enc ≡ n = (pct_encode_to_string-exact userinfo_chars encode_opts s).1 in
    let (old, v, e, size_old, spliced) =
      resize_range-Spliced id_user id_host (n + 3) valid (omega arith) (omega arith) fits in
    let edit = split-Edited id_user (n + 2) (fill_userinfo enc n size_enc valid spliced size_old) in
    let here = spliced.before id_user (omega arith) in
    let end = spliced.after id_host (omega arith) (omega arith) in
    let room : offset v id_host - 1 - (offset v id_user + 2) ≡ n = omega arith in
    let w = split id_user (n + 2) (
      put (offset v id_user + 2) enc
        (put (offset v id_user + (n + 2)) (b'@' ∷ []) (put (offset v id_user) slashes v))) in
    let sep = or_npos (find_first_of b':' s) in
    let whole_size : length (whole enc) ≡ n + 3 = omega (arith, length-append enc (b'@' ∷ [])) in
    let range : get_range w id_user id_host ≡ whole enc =
      get_range-Edited id_user valid (omega arith) edit (omega arith) in
    let cut : offset w id_pass ≡ offset u id_user + (length enc + 2) =
      unfold split in
      omega (
        arith,
        here,
        size_enc,
        valid.ascend id_user id_host (omega arith) (omega arith),
        valid.ascend id_host id_end (omega arith) (omega arith),
      ) in
    (
      split_userinfo (length s) sep (find_first_of b':' (whole enc)) w,
      rw (e, room)
          (unfold pct_encode_to_string in
            ap (λ r. ok (split_userinfo (length s) sep (find_first_of b':' r) w)) range),
      split_userinfo-Shared u w enc (length s) sep (find_first_of b':' (whole enc)) valid edit cut
          (omega arith) (find_first_of-Below b':' (whole enc)),
      split_userinfo-Sizes s (find_first_of b':' (whole enc)) w,
    )
