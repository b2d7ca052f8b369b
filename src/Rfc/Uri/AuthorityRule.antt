-- ===== src/Rfc/Uri/AuthorityRule.antt =====
-- `authority_rule` returns a valid table of the text that it takes.
use boost_url.Base.{◌≡◌, [], Bytes}
use boost_url.Rfc.Uri.Authority.{UserText, HostText, PortText}
use boost_url.Url.{id_user, id_pass, id_host, id_port, id_path, get, Url}
use boost_url.Url.Apply.Laid.{Laid}
use boost_url.Url.Frame.{IsValid}

-- The table of `u` is valid, the characters are `t`, and the parts are those of an authority, with no
-- "//"; the parts behind it are empty.
pub record IsAuthority (t : Bytes) (u : Url) : Type 0 where
  pub valid : IsValid u
  pub chars_are : u.chars ≡ t
  pub user_text : UserText (get u id_user) (get u id_pass)
  pub host_text : HostText (get u id_host)
  pub port_text : PortText (get u id_port)
  pub no_path : get u id_path ≡ []
