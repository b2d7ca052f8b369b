-- ===== src/Url/Authority.antt =====
-- The port setters and `remove_authority` of impl/url_base.ipp, and the part of the host setters
-- that makes room.
pub mod Laws
use boost_url.Base.{
  ℕ, zero, suc, ◌+◌, ◌/◌, ◌%◌, Bool, false, not, ◌&&◌, [], ◌∷◌, ◌==◌, if◌then◌else◌, Bytes, length,
  ◌>>=◌, Result, ok,
}
use boost_url.Pct.Validate.{plain}
use boost_url.Url.{
  id_user, id_pass, id_host, id_port, id_path, offset, len, get, split, put, HostType, Url,
}
use boost_url.Url.Resize.{resize_range, resize_part}

-- The caller writes behind "//" where there was no authority, at the host's offset otherwise.
unfoldable pub set_host_impl : ℕ → Url → Result Url
unfolding resize_part split
set_host_impl n u =
    let add = do
      v ← resize_part id_user (n + 2) u
      let dest = offset v id_user
      ok (put dest (b'/' ∷ b'/' ∷ []) (split id_pass 0 (split id_user 2 v)))
    in if len u id_user == 0 then add else resize_part id_host n u

-- The caller writes one behind the port's offset.
unfoldable pub set_port_impl : ℕ → Url → Result Url
unfolding resize_part split
set_port_impl n u =
    let keep = do v ← resize_part id_port (n + 1) u; ok (put (offset v id_port) (b':' ∷ []) v)
    in let add = do
      v ← resize_part id_user (3 + n) u
      let dest = offset v id_user
      ok (
          put dest (b'/' ∷ b'/' ∷ b':' ∷ [])
            (split id_host 0 (split id_pass 0 (split id_user 2 v))))
      in if not (len u id_user == 0) then keep else add

unfoldable pub remove_port : Url → Result Url
unfolding resize_part
remove_port u = do v ← resize_part id_port 0 u; ok (record v { port_number_ = 0 })

-- `detail::make_printed` of detail/print.hpp, for the 16-bit port: the decimal digits.
unfoldable pub print_digits : ℕ → ℕ → Bytes → Bytes
print_digits zero n rest = rest
print_digits (suc fuel) n rest =
    let digits = (n % 10 + b'0') ∷ rest in
    let more = print_digits fuel (n / 10) digits in if n / 10 == 0 then digits else more

unfoldable pub make_printed : ℕ → Bytes
unfolding print_digits
make_printed n = print_digits 5 n []

unfoldable pub set_port : ℕ → Url → Result Url
unfolding set_port_impl make_printed
set_port n u = do
  v ← set_port_impl (length (make_printed n)) u
  ok (record (put (offset v id_port + 1) (make_printed n) v) { port_number_ = n })

abbrev starts_with_slashes : Bytes → Bool
starts_with_slashes (a ∷ b ∷ _) = a == b'/' && b == b'/'
starts_with_slashes _ = false

-- "/." is put in front of a path that would otherwise read as an authority.
unfoldable pub remove_authority : Url → Result Url
unfolding resize_range split len get
remove_authority u =
    let dotted = do
      v ← resize_range id_user id_path 2 u
      let w = put (offset v id_user) (b'/' ∷ b'.' ∷ []) v
      ok (record (split id_port 0 (split id_host 0 (split id_pass 0 (split id_user 0 w)))) {
        host_type_ = HostType.none;
      })
    in let plain = do
      v ← resize_range id_user id_path 0 u
      ok (record v { host_type_ = HostType.none })
      in if len u id_user == 0
        then ok u
        else if starts_with_slashes (get u id_path)
        then dotted
        else plain
