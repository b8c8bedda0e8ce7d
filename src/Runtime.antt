-- ===== src/Runtime.antt =====
-- crates/plugin_runtime/host-runtime/src/lib.rs: running the slots of loaded plugins.
pub mod Plugin
pub mod Single
pub mod Loaded
