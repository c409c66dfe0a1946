-- ===== src/Cmd.antt =====
-- src/cmd: the commands.
pub mod Serve
pub mod Backfill
pub mod Healthcheck
pub mod Migrate
