-- ===== src/Cli.antt =====
-- internal/cli: the command-line tool.
pub mod Errors
pub mod Rediscover
pub mod Volume
pub mod Link
pub mod Power
pub mod Watch
pub mod Diff
pub mod Dump
pub mod Args
pub mod Add
pub mod Wizard
pub mod Root
