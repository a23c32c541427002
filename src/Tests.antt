-- ===== src/Tests.antt =====
-- Runs of the definitions on small inputs, and the theorems applied to them.
mod Samples
pub mod ReplayRuns
pub mod ReplayWitnesses
pub mod ToolWitnesses
pub mod StopWitnesses
pub mod RunWitnesses
mod StoreSamples
pub mod StoreWitnesses
pub mod PatchWitnesses
