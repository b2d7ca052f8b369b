-- ===== src/Rfc.antt =====
-- The rules of RFC 3986: include/boost/url/rfc/ and rfc/detail/.
pub mod PctEncoded
pub mod Userinfo
pub mod Ipv6
pub mod Host
pub mod Path
pub mod Query
pub mod Uri
pub mod Parse
