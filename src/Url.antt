-- ===== src/Url.antt =====
-- The state of a URL: the character buffer, and the table of part offsets and its operations.
-- include/boost/url/detail/parts_base.hpp, detail/url_impl.hpp and host_type.hpp.
pub mod Resize
pub mod Frame
pub mod Parts
pub mod Replace
pub mod Shared
pub mod Fragment
pub mod Userinfo
pub mod Authority
pub mod Apply
pub mod View
pub mod Normalize
pub mod Path
pub mod Query
pub mod Host
pub mod Segments
pub mod Params
pub mod FromView
pub mod Resized
pub mod Iter
pub mod SchemePart
use boost_url.Base.{ℕ, ◌+◌, ◌-◌, ◌%◌, ◌&&◌, ltb, leb, ◌==◌, if◌then◌else◌, within, Bytes}
use boost_url.Base.Slices.{slice, write}
use boost_url.Scheme.{Scheme}

pub data HostType : Type 0 where
  none name ipv4 ipv6 ipvfuture : HostType

-- The part ids. The source counts from -1, and so do the indices of its tables.
abbrev pub id_scheme : ℕ
id_scheme = 0

abbrev pub id_user : ℕ
id_user = 1

abbrev pub id_pass : ℕ
id_pass = 2

abbrev pub id_host : ℕ
id_host = 3

abbrev pub id_port : ℕ
id_port = 4

abbrev pub id_path : ℕ
id_path = 5

abbrev pub id_query : ℕ
id_query = 6

abbrev pub id_frag : ℕ
id_frag = 7

abbrev pub id_end : ℕ
id_end = 8

-- `pos_t` is a 64-bit `size_t`: sums and differences wrap.
abbrev pub pos_mod : ℕ
pos_mod = 0x1_0000_0000_0000_0000

abbrev pub pos_add : ℕ → ℕ → ℕ
pos_add a b = (a + b) % pos_mod

abbrev pub pos_sub : ℕ → ℕ → ℕ
pos_sub a b = (a + (pos_mod - b)) % pos_mod

-- `BOOST_URL_MAX_SIZE`
abbrev pub max_size : ℕ
max_size = pos_mod - 2

abbrev pub Table : Type 0
Table = ℕ → ℕ

-- `url_impl` with the characters it points to, `chars` being the bytes `s_[0, size())` in front of
-- the terminating NUL. `offset_` and `decoded_` are read at part ids only.
pub record Url : Type 0 where
  pub chars : Bytes
  pub offset_ : Table
  pub decoded_ : Table
  pub nseg_ : ℕ
  pub nparam_ : ℕ
  pub ip_addr_ : Bytes
  pub port_number_ : ℕ
  pub host_type_ : HostType
  pub scheme_ : Scheme

abbrev pub offset : Url → ℕ → ℕ
offset u id = if id == id_scheme then 0 else u.offset_ id

abbrev pub size : Url → ℕ
size u = offset u id_end

unfoldable pub len_range : Url → ℕ → ℕ → ℕ
len_range u first last = pos_sub (offset u last) (offset u first)

unfoldable pub len : Url → ℕ → ℕ
len u id = if id == id_end then 0 else pos_sub (offset u (id + 1)) (offset u id)

unfoldable pub get : Url → ℕ → Bytes
unfolding len
get u id = slice (offset u id) (len u id) u.chars

unfoldable pub get_range : Url → ℕ → ℕ → Bytes
get_range u first last = slice (offset u first) (pos_sub (offset u last) (offset u first)) u.chars

-- `for(i = first; i <= last; ++i) offset_[i] += n`
unfoldable pub adjust : ℕ → ℕ → ℕ → Table → Table
adjust first last n t i = if within first last i then pos_add (t i) n else t i

-- `for(i = first + 1; i < last; ++i) offset_[i] = n`
unfoldable pub collapse : ℕ → ℕ → ℕ → Table → Table
collapse first last n t i = if leb (first + 1) i && ltb i last then n else t i

-- Change `id` to size `n`.
unfoldable pub set_size : ℕ → ℕ → Url → Url
unfolding adjust len
set_size id n u = record u { offset_ = adjust (id + 1) id_end (pos_sub n (len u id)) u.offset_ }

-- Trim `id` to size `n`, moving the excess into the next part.
unfoldable pub split : ℕ → ℕ → Url → Url
split id n u = record u {
  offset_ = λ i. if i == id + 1 then pos_add (offset u id) n else u.offset_ i;
}

-- `memcpy` to `s_ + at`
abbrev pub put : ℕ → Bytes → Url → Url
put at s u = record u { chars = write u.chars at s }

abbrev pub set_decoded : ℕ → ℕ → Url → Url
set_decoded id n u = record u { decoded_ = λ i. if i == id then n else u.decoded_ i }
