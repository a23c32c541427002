-- ===== src/Replay/Refine.antt =====
-- The indexed fold of crates/event-store/src/replay.rs against Replay/Spec.
pub mod Relation
pub mod Pending
pub mod Turns
pub mod Calls
pub mod Decisions
pub mod Steps
pub mod Whole
