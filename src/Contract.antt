-- ===== src/Contract.antt =====
-- crates/plugin_runtime/host-contract: slots, manifests, packages and the registries over them.
pub mod Failure
pub mod Token
pub mod Slot
pub mod Wit
pub mod Package
pub mod Payloads
pub mod Manifest
pub mod Registry
pub mod Merged
