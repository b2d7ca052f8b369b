-- ===== src/Scheme.antt =====
-- Known schemes: include/boost/url/scheme.hpp and impl/scheme.ipp.
pub mod Laws
use boost_url.Base.{ℕ, ◌&&◌, [], ◌∷◌, ◌==◌, if◌then◌else◌, Bytes, codes}
use boost_url.Chars.{to_lower}

pub data Scheme : Type 0 where
  none unknown ftp file http https ws wss : Scheme

-- `switch(s.size())` and the comparisons below it.
unfoldable pub string_to_scheme : Bytes → Scheme
string_to_scheme [] = none
string_to_scheme (a ∷ b ∷ []) = if to_lower a == b'w' && to_lower b == b's' then ws else unknown
string_to_scheme (a ∷ b ∷ c ∷ []) =
    if to_lower a == b'w'
    then (if to_lower b == b's' && to_lower c == b's' then wss else unknown)
    else if to_lower a == b'f'
    then (if to_lower b == b't' && to_lower c == b'p' then ftp else unknown)
    else unknown
string_to_scheme (a ∷ b ∷ c ∷ d ∷ []) =
    if to_lower a == b'f'
    then (if to_lower b == b'i' && to_lower c == b'l' && to_lower d == b'e' then file else unknown)
    else if to_lower a == b'h'
    then (if to_lower b == b't' && to_lower c == b't' && to_lower d == b'p' then http else unknown)
    else unknown
string_to_scheme (a ∷ b ∷ c ∷ d ∷ e ∷ []) =
    if to_lower a == b'h'
      && to_lower b == b't'
      && to_lower c == b't'
      && to_lower d == b'p'
      && to_lower e == b's'
    then https
    else unknown
string_to_scheme _ = unknown

unfoldable pub to_string : Scheme → Bytes
to_string ftp = codes "ftp"
to_string file = codes "file"
to_string http = codes "http"
to_string https = codes "https"
to_string ws = codes "ws"
to_string wss = codes "wss"
to_string none = []
to_string unknown = codes "<unknown>"

unfoldable pub default_port : Scheme → ℕ
default_port ftp = 21
default_port http = 80
default_port ws = 80
default_port https = 443
default_port wss = 443
default_port _ = 0
