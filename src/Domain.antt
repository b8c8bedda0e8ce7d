-- ===== src/Domain.antt =====
-- The domain layer, crates/domain.
pub mod Error
pub mod State
pub mod Outbound
pub mod PluginSlot
pub mod Pipeline
