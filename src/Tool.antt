-- ===== src/Tool.antt =====
-- crates/tool-runtime.
pub mod Call
pub mod Reason
pub mod Prepared
pub mod Registry
pub mod Authorization
pub mod Handled
pub mod Dispatch
pub mod Approval
pub mod Registration
