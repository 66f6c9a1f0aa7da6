-- ===== src/Ynca.antt =====
-- pkg/ynca: the YNCA line protocol on TCP port 50000.
pub mod Errors
pub mod Wire
pub mod Framing
pub mod Client
pub mod Enums
pub mod Playing
pub mod Codec
pub mod Control
pub mod Reports
pub mod Status
pub mod Tuner
pub mod Scenes
pub mod Session
pub mod Functions
