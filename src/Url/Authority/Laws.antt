-- ===== src/Url/Authority/Laws.antt =====
-- What the port setters do to the parts of a URL that has an authority.
use boost_url.Base.{ℕ, ◌+◌, ◌≡◌, refl, ◌≢◌, [], ◌∷◌, arith, length, ok}
use boost_url.Url.{id_user, id_port, id_path, offset, get, put, Url}
use boost_url.Url.Authority.{set_port_impl, remove_port, make_printed, set_port}
use boost_url.Url.Frame.{resize_range-Spliced, IsValid}
use boost_url.Url.Replace.{
  Fits, Replaced, Replaced-rest, fill-Replaced, resize_zero-Replaced, has_part,
}
use boost_url.Url.Resize.{resize_part}

-- `set_port` of a number never throws while the result fits, on a URL with an authority: the port
-- is then ':' and the decimal digits of the number, which is stored; every other part keeps its
-- characters, and the table stays valid.
pub set_port_lem :
    (n : ℕ) (u : Url)
    → IsValid u
    → get u id_user ≢ []
    → Fits u id_port id_path (1 + length (make_printed n))
    → (v : Url) × (set_port n u ≡ ok v)
      × Replaced u id_port (b':' ∷ make_printed n) v
      × (v.port_number_ ≡ n)
unfolding set_port set_port_impl resize_part
set_port_lem n u valid authority fits =
    let m = length (make_printed n) in
    let (old, v, e, size_old, spliced) =
      resize_range-Spliced id_port id_path (m + 1) valid (omega arith) (omega arith)
        (omega arith) in
    let filled =
      fill-Replaced id_port (b':' ∷ []) (make_printed n) valid (omega arith) spliced (omega arith)
        (omega arith) in
    (
      record (put (offset v id_port + 1) (make_printed n) (put (offset v id_port) (b':' ∷ []) v)) {
        port_number_ = n;
      },
      rw (has_part u id_user valid (omega arith) authority, e),
      Replaced-rest u _ id_port _ _ _ _ _ _ _ _ filled,
      refl,
    )

-- `remove_port` never throws: it empties the port and stores the number 0; every other part keeps
-- its characters, and the table stays valid.
remove_port_lem :
    (u : Url)
    → IsValid u
    → (v : Url) × (remove_port u ≡ ok v) × Replaced u id_port [] v × (v.port_number_ ≡ 0)
unfolding remove_port
remove_port_lem u valid =
    let (v, e, r) = resize_zero-Replaced u id_port valid (omega arith) in
    (record v { port_number_ = 0 }, rw e, Replaced-rest u _ id_port _ _ _ _ _ _ _ _ r, refl)
