-- ===== src/Watchlist.antt =====
-- src/watchlist: the in-memory watchlist, reloaded from the database, a file or a URL.
pub mod Matcher
pub mod Sources
