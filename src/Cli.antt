-- ===== src/Cli.antt =====
-- internal/cli: the command line's own part in the forwards.
pub mod Mapping
pub mod Saved
