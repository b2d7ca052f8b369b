-- ===== src/Tests.antt =====
-- Runs of the model on concrete inputs, and the theorems at inputs that meet their hypotheses.
mod Compare
mod Ipv4
mod Normalize
mod Parse
mod Ipv6
mod Pct
mod Port
mod Sample
mod Rfc
mod RfcRuns
mod Query
mod Scheme
mod SchemePart
mod Path
mod Host
mod Containers
mod Unsigned
mod Url
mod Userinfo
