-- ===== src/Parse.antt =====
-- src/parse: host names out of certificates, and their registered domains.
pub mod X509
pub mod Psl
pub mod San
