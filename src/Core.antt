-- ===== src/Core.antt =====
-- crates/core: the registry of VPN cores.
pub mod Registry
pub mod Adapter
