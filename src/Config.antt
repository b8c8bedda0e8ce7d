-- ===== src/Config.antt =====
-- crates/config/pipeline: the strategies of a connection and the processors of its configuration.
pub mod Strategy
pub mod Attempt
pub mod Processors
pub mod Classify
