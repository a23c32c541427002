-- ===== src/Agent.antt =====
-- crates/agent-runtime: the canonical events of an Agent Run and the runtime that emits them.
pub mod Event
pub mod Action
pub mod Stop
pub mod Runtime
pub mod Turn
pub mod Loop
pub mod Log
