-- ===== src/Patch.antt =====
-- crates/capability-coding/src/patch.rs: unified diffs and how they are applied to a text.
pub mod Lines
pub mod Paths
pub mod Hunk
pub mod Diff
pub mod Apply
pub mod Range
pub mod Body
