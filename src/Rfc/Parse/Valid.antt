-- ===== src/Rfc/Parse/Valid.antt =====
-- The functions that parse a whole string return valid URLs of that string.
use boost_url.Base.{◌⊎◌, Bytes}
use boost_url.Rfc.Path.Yields.{IsPathNoscheme, IsPathRootless}
use boost_url.Rfc.Uri.Yields.{SchemeText, FragmentText, NoText, IsUrl}
use boost_url.Url.{Url}

-- What a URI reference is.
abbrev pub IsUriReference : Bytes → Url → Type 0
IsUriReference t u =
    IsUrl SchemeText IsPathRootless FragmentText t u ⊎ IsUrl NoText IsPathNoscheme FragmentText t u
