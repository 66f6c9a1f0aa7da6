-- ===== src/Tests.antt =====
-- Tests on concrete inputs, and each property at an input that meets its hypotheses.
mod Media
mod Link
mod Discover
mod Framing
mod Wire
mod Client
mod Validate
mod Control
mod Decoders
mod Yxc
mod Cli
mod Volume
mod Session
mod Config
mod Output
mod Diff
mod Commands
