-- ===== src/Replay/Accepted.antt =====
-- The logs that strict replay of crates/event-store/src/replay.rs accepts.
pub mod Sound
pub mod Notes
pub mod Steps
pub mod Contents
pub mod Order
pub mod Behind
pub mod Guarantees
