-- ===== src/Node/Certs/Lego.antt =====
-- node/lego.go: the ACME account, and a certificate from ACME that is written to the files of the
-- configuration. The log and the files that are never closed are left out.
pub mod Account
pub mod RoundTrip
pub mod Obtain
pub mod Keeps
pub mod Placeholder
pub mod Renew
