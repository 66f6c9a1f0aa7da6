-- ===== src/Config.antt =====
-- internal/config: the configuration file.
pub mod Schema
pub mod Resolve
pub mod Save
