-- ===== src/Mocks.antt =====
-- crates/mocks: the stand-ins for real cores.
pub mod Core
