-- ===== src/Url/Normalize.antt =====
-- The normalizations of impl/url_base.ipp but that of the path. Lower-casing writes each character over
-- itself.
pub mod Laws
pub mod Octets
-- The characters from `offset(id)` to `offset(id + 1)`.
use boost_url.Base.{
  ℕ, zero, suc, ◌+◌, ◌-◌, true, false, not, Option, none, some, [], ◌∷◌, map, ◌==◌, if◌then◌else◌,
  Bytes, length, drop,
}
use boost_url.Base.Slices.{slice, write}
use boost_url.Chars.{
  CharSet, to_lower, to_upper, user_chars, password_chars, reg_name_chars, query_chars,
  fragment_chars,
}
use boost_url.Pct.Decode.{pct_decode_unchecked}
use boost_url.Url.{
  id_scheme, id_user, id_pass, id_host, id_query, id_frag, offset, len, put, HostType, Url,
}
use boost_url.Url.Resize.{shrink_part}
use boost_url.Url.Userinfo.{decode_opts}
use boost_url.Url.View.{host}

abbrev pub chars_of_part : ℕ → Url → Bytes
chars_of_part id u = slice (offset u id) (offset u (id + 1) - offset u id) u.chars

unfoldable pub to_lower_impl : ℕ → Url → Url
to_lower_impl id u = put (offset u id) (map to_lower (chars_of_part id u)) u

-- The loop over the part: an escape is left as it is.
unfoldable pub decoded_to_lower : Bytes → Bytes
decoded_to_lower [] = []
decoded_to_lower (c ∷ []) = if not (c == b'%') then to_lower c ∷ [] else c ∷ []
decoded_to_lower (c ∷ d ∷ []) = elim (c == b'%') [
  | true ↦ c ∷ d ∷ []
  | false ↦ to_lower c ∷ decoded_to_lower (d ∷ [])
]
decoded_to_lower (c ∷ d ∷ e ∷ s) = elim (c == b'%') [
  | true ↦ c ∷ d ∷ e ∷ decoded_to_lower s
  | false ↦ to_lower c ∷ decoded_to_lower (d ∷ e ∷ s)
]

unfoldable pub decoded_to_lower_impl : ℕ → Url → Url
unfolding decoded_to_lower
decoded_to_lower_impl id u = put (offset u id) (decoded_to_lower (chars_of_part id u)) u

unfoldable pub normalize_scheme : Url → Url
unfolding to_lower_impl
normalize_scheme = to_lower_impl id_scheme

-- An escape at `it` whose digits are `d` and `e`. One that stays is not moved to `dest`.
unfoldable pub octet_escape : CharSet → ℕ → ℕ → Bytes → ℕ → ℕ → Option (Bytes × ℕ × ℕ)
unfolding pct_decode_unchecked to_upper
octet_escape cs d e part it dest =
    elim ((pct_decode_unchecked 1 (b'%' ∷ d ∷ e ∷ []) decode_opts).bytes) [
      | [] ↦ none
      | b ∷ _ ↦
          if cs b
          then some (write part dest (b ∷ []), it + 3, dest + 1)
          else some (write part (it + 1) (to_upper d ∷ to_upper e ∷ []), it + 3, dest + 3)
    ]

-- A round of the loop of `normalize_octets_impl` on the characters of the part, which it reads at `it`,
-- with `s` from there, and writes at `dest`.
unfoldable pub octet_step : CharSet → Bytes → Bytes → ℕ → ℕ → Option (Bytes × ℕ × ℕ)
unfolding octet_escape
octet_step cs [] part it dest = none
octet_step cs (c ∷ []) part it dest =
    if c == b'%' then none else some (write part dest (c ∷ []), it + 1, dest + 1)
octet_step cs (c ∷ d ∷ []) part it dest =
    if c == b'%' then none else some (write part dest (c ∷ []), it + 1, dest + 1)
octet_step cs (c ∷ d ∷ e ∷ s) part it dest =
    if c == b'%'
    then octet_escape cs d e part it dest
    else some (write part dest (c ∷ []), it + 1, dest + 1)

unfoldable pub octets_loop : ℕ → CharSet → Bytes → ℕ → ℕ → Bytes × ℕ × ℕ
unfolding octet_step
octets_loop zero cs part it dest = (part, it, dest)
octets_loop (suc fuel) cs part it dest = elim (octet_step cs (drop it part) part it dest) [
  | none ↦ (part, it, dest)
  | some (next, it', dest') ↦ octets_loop fuel cs next it' dest'
]

-- A round moves `it`, so that the size of the part is enough fuel.
unfoldable pub normalize_octets_impl : ℕ → CharSet → Url → Url
unfolding octets_loop shrink_part len
normalize_octets_impl id cs u =
    let part = chars_of_part id u in
    let (after, it, dest) = octets_loop (length part) cs part 0 0 in
    let v = put (offset u id) after u in
    if it == dest then v else shrink_part id (len u id - (it - dest)) v

unfoldable pub normalize_authority : Url → Url
unfolding normalize_octets_impl decoded_to_lower_impl
normalize_authority u =
    let host : Url = elim u.host_type_ [
      | HostType.name ↦ normalize_octets_impl id_host reg_name_chars u
      | _ ↦ u
    ] in
    normalize_octets_impl id_user user_chars
      (normalize_octets_impl id_pass password_chars (decoded_to_lower_impl id_host host))

unfoldable pub normalize_query : Url → Url
unfolding normalize_octets_impl
normalize_query = normalize_octets_impl id_query query_chars

unfoldable pub normalize_fragment : Url → Url
unfolding normalize_octets_impl
normalize_fragment = normalize_octets_impl id_frag fragment_chars
