-- ===== src/Model/Stream.antt =====
-- crates/model-runtime/src/stream.rs and id.rs.
use young_agent.Prelude.{ℕ, String, Bool, Option}
use young_agent.Tool.Call.{Extensions}

abbrev pub ModelToolCallId : Type 0
ModelToolCallId = String

pub record ModelUsage : Type 0 where
  pub input_tokens : ℕ
  pub output_tokens : ℕ

pub record ModelError : Type 0 where
  pub code : String
  pub message : String
  pub retryable : Bool

-- The last field of each event is its extensions.
pub data ModelStreamEvent (V : Type 0) : Type 0 where
  started : Option String → Extensions V → ModelStreamEvent V
  text_delta : String → Extensions V → ModelStreamEvent V
  tool_call_delta : ModelToolCallId → Option String → String → Extensions V → ModelStreamEvent V
  tool_call : ModelToolCallId → String → V → Extensions V → ModelStreamEvent V
  usage : ModelUsage → Extensions V → ModelStreamEvent V
  completed : Option String → Extensions V → ModelStreamEvent V
  failed : ModelError → Extensions V → ModelStreamEvent V
