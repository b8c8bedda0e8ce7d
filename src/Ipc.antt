-- ===== src/Ipc.antt =====
-- crates/extension_slots/ipc: the JSON-RPC protocol and the event broadcaster.
pub mod Discovery
pub mod Protocol
pub mod Broadcaster
pub mod SlotObserver
