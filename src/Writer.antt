-- ===== src/Writer.antt =====
-- src/writer.rs: the single writer behind the ingest workers.
pub mod Job
pub mod Prepare
pub mod Flush
pub mod Loop
