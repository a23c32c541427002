-- ===== src/Agent/Event.antt =====
-- crates/agent-runtime/src/run.rs and turn.rs: the canonical events of one Agent Run.
use young_agent.Prelude.{ℕ, String, Bool, List, Option, some}
use young_agent.Tool.Call.{ToolCallId, ToolCall, ToolResult, Extensions}
use young_agent.Model.Stream.{ModelToolCallId, ModelStreamEvent}

abbrev pub RunId : Type 0
RunId = String

abbrev pub TurnId : Type 0
TurnId = String

-- A `u64`.
abbrev pub EventSequence : Type 0
EventSequence = ℕ

pub record AgentError : Type 0 where
  pub code : String
  pub message : String
  pub recoverable : Bool

pub data TerminalRunStatus : Type 0 where
  completed : String → TerminalRunStatus
  failed : AgentError → TerminalRunStatus
  interrupted : String → TerminalRunStatus
  cancelled : String → TerminalRunStatus

pub data RunStatus : Type 0 where
  running : RunStatus
  awaiting_approval : RunStatus
  recovery_required : List ToolCallId → RunStatus
  finished : TerminalRunStatus → RunStatus

pub record ApprovalRequest (V : Type 0) : Type 0 where
  pub id : String
  pub call : ToolCall V
  pub reason : String

pub data ApprovalDecision : Type 0 where
  approve : ApprovalDecision
  deny : String → ApprovalDecision

-- What every event carries beside its own fields.
pub record Envelope (V : Type 0) : Type 0 where
  pub run_id : RunId
  pub event_sequence : Option EventSequence
  pub extensions : Extensions V

-- The field `run_id`, `event_sequence` and `extensions` of each variant stand in its envelope.
pub data AgentEvent (V : Type 0) : Type 0 where
  run_started : Envelope V → AgentEvent V
  turn_started : Envelope V → TurnId → AgentEvent V
  model_output : Envelope V → TurnId → ModelStreamEvent V → AgentEvent V
  tool_call_requested : Envelope V → TurnId → ModelToolCallId → ToolCall V → AgentEvent V
  approval_requested : Envelope V → TurnId → ApprovalRequest V → AgentEvent V
  approval_resolved : Envelope V → TurnId → String → ApprovalDecision → AgentEvent V
  tool_result : Envelope V → TurnId → ToolResult V → AgentEvent V
  error : Envelope V → Option TurnId → AgentError → AgentEvent V
  run_finished : Envelope V → TerminalRunStatus → AgentEvent V

module _ {V : Type 0} where
  abbrev pub envelope : AgentEvent V → Envelope V
  envelope (run_started m) = m
  envelope (turn_started m t) = m
  envelope (model_output m t o) = m
  envelope (tool_call_requested m t i c) = m
  envelope (approval_requested m t r) = m
  envelope (approval_resolved m t i d) = m
  envelope (tool_result m t r) = m
  envelope (error m t x) = m
  envelope (run_finished m s) = m

  abbrev pub run_id : AgentEvent V → RunId
  run_id event = (envelope event).run_id

  abbrev pub event_sequence : AgentEvent V → Option EventSequence
  event_sequence event = (envelope event).event_sequence

  abbrev numbered : EventSequence → Envelope V → Envelope V
  numbered sequence m = record m { event_sequence = some sequence }

  abbrev pub with_event_sequence : AgentEvent V → EventSequence → AgentEvent V
  with_event_sequence (run_started m) n = run_started (numbered n m)
  with_event_sequence (turn_started m t) n = turn_started (numbered n m) t
  with_event_sequence (model_output m t o) n = model_output (numbered n m) t o
  with_event_sequence (tool_call_requested m t i c) n = tool_call_requested (numbered n m) t i c
  with_event_sequence (approval_requested m t r) n = approval_requested (numbered n m) t r
  with_event_sequence (approval_resolved m t i d) n = approval_resolved (numbered n m) t i d
  with_event_sequence (tool_result m t r) n = tool_result (numbered n m) t r
  with_event_sequence (error m t x) n = error (numbered n m) t x
  with_event_sequence (run_finished m s) n = run_finished (numbered n m) s
