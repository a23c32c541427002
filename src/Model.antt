-- ===== src/Model.antt =====
-- crates/model-runtime: the provider-neutral messages and stream events.
pub mod Stream
pub mod Message
