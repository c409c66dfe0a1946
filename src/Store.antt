-- ===== src/Store.antt =====
-- src/store: the tables that the migrations create, and the statements that the modules below run.
pub mod Db
pub mod Cursors
pub mod Certs
pub mod Names
pub mod Outbox
pub mod Watchlist
pub mod BackfillJobs
pub mod Pages
pub mod Reads
pub mod Answering
