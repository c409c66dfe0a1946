-- ===== src/Stream.antt =====
-- src/stream: the events for subscribers of /v1/stream.
pub mod Event
pub mod Handler
