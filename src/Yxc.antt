-- ===== src/Yxc.antt =====
-- pkg/yxc: the YamahaExtendedControl protocol over HTTP, and its helpers.
pub mod Validate
pub mod Errors
pub mod Client
pub mod Backoff
pub mod Zone
pub mod Dist
pub mod Media
pub mod Cache
pub mod Events
pub mod Features
