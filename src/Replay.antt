-- ===== src/Replay.antt =====
-- crates/event-store/src/replay.rs: the run state that an event log determines.
pub mod Timeline
pub mod Step
pub mod Run
pub mod Spec
pub mod View
pub mod Refine
pub mod Accepted
