-- ===== src/Discover.antt =====
-- pkg/discover: receivers are found by SSDP, or by dialling the addresses of the local subnets.
pub mod Exchange
pub mod Fetch
pub mod Locations
pub mod Find
pub mod Sweep
pub mod Probe
