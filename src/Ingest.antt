-- ===== src/Ingest.antt =====
-- src/ingest: what is read from a Certificate Transparency log, and the two workers that read it.
pub mod Entry
pub mod LogList
pub mod Client
pub mod Worker
pub mod Backfill
mod Examples
