-- ===== src/Agent/Log.antt =====
-- The log that a run of crates/agent-runtime/src/runtime.rs leaves behind.
pub mod Triples
pub mod Emits
pub mod Ends
pub mod Calls
pub mod Whole
