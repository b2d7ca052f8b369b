-- ===== src/Pct.antt =====
-- Percent-encoding: include/boost/url/impl/pct_encoding.ipp and impl/pct_encoding.hpp.
-- A pair of pointers `dest`, `end` is the room between them, and what a function writes at
-- `dest` is a list. A pair `it`, `end` into the input is the list of the bytes that are left.
pub mod Decode
pub mod Validate
pub mod Encode
pub mod Bounds
pub mod Exact
pub mod RoundTrip
pub mod View
pub mod Grammar
pub mod Total
