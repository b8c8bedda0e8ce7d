-- ===== src/Storage.antt =====
-- crates/shared/storage: the settings stores.
pub mod Memory
pub mod JsonStore
