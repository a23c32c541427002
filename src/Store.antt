-- ===== src/Store.antt =====
-- crates/event-store/src/jsonl.rs: the append-only log of events in a file.
pub mod Bytes
pub mod Lines
pub mod Disk
pub mod Line
pub mod Log
pub mod Read
pub mod Triples
pub mod Tail
pub mod Append
pub mod Reconcile
pub mod Guarantees
pub mod Recovery
pub mod RoundTrip
