-- ===== src/Replay/Timeline.antt =====
-- crates/event-store/src/replay.rs: the error type, the index of one tool call and its view of the
-- timeline. `panic` stands for `unreachable!`, `expect` and an index out of range.
use young_agent.Prelude.{
  ℕ, String, List, [], ◌∷◌, Option, none, some, is_none, get_elem?, if◌then◌else◌, Outcome, ok,
  panic, ◌>>=◌,
}
use young_agent.Tool.Call.{ToolCallId, ToolCall, ToolResult}
use young_agent.Model.Stream.{ModelToolCallId}
use young_agent.Agent.Event.{
  RunId, TurnId, AgentEvent, AgentError, ApprovalRequest, ApprovalDecision, tool_call_requested,
  approval_requested, approval_resolved, tool_result, error,
}

-- The first field of each error is the event's number, counted from 1.
pub data ReplayError : Type 0 where
  empty_log : ReplayError
  first_event_is_not_run_started : ReplayError
  duplicate_run_started : ℕ → ReplayError
  mismatched_run_id : ℕ → RunId → RunId → ReplayError
  duplicate_turn_started : ℕ → TurnId → ReplayError
  event_for_unknown_turn : ℕ → TurnId → ReplayError
  event_for_inactive_turn : ℕ → TurnId → TurnId → ReplayError
  turn_started_with_unresolved_tool_calls : ℕ → TurnId → List ToolCallId → ReplayError
  mismatched_tool_lifecycle_turn : ℕ → ToolCallId → TurnId → TurnId → ReplayError
  event_after_run_finished : ℕ → ReplayError
  duplicate_tool_call : ℕ → ToolCallId → ReplayError
  approval_for_unknown_tool_call : ℕ → ToolCallId → ReplayError
  result_for_unknown_tool_call : ℕ → ToolCallId → ReplayError
  approval_call_mismatch : ℕ → ToolCallId → ReplayError
  approval_after_tool_result : ℕ → ToolCallId → ReplayError
  duplicate_approval : ℕ → ToolCallId → ReplayError
  duplicate_approval_id : ℕ → String → ReplayError
  resolution_for_unknown_approval : ℕ → String → ReplayError
  duplicate_approval_resolution : ℕ → String → ReplayError
  approval_resolution_after_tool_result : ℕ → String → ReplayError
  tool_result_before_approval_resolution : ℕ → ToolCallId → ReplayError
  invalid_approval_denial_result : ℕ → ToolCallId → ReplayError
  mixed_approval_log_formats : ℕ → ReplayError
  legacy_compatibility_for_sequenced_log : ℕ → ReplayError
  terminal_with_unresolved_tool_calls : ℕ → List ToolCallId → ReplayError
  duplicate_tool_result : ℕ → ToolCallId → ReplayError

abbrev pub Replayed : Type 0 → Type 0
Replayed A = Outcome ReplayError A

pub record ReplayedToolCallIndex : Type 0 where
  pub requested_event : ℕ
  pub approval_event : Option ℕ
  pub approval_resolution_event : Option ℕ
  pub result_event : Option ℕ

-- What the accessors match on the event at an index.
module _ {V : Type 0} where
  abbrev pub requested_at : Option (AgentEvent V) → Replayed (TurnId × ToolCall V)
  requested_at (some (tool_call_requested m t i c)) = ok (t, c)
  requested_at _ = panic

  abbrev pub model_id_at : Option (AgentEvent V) → Replayed ModelToolCallId
  model_id_at (some (tool_call_requested m t i c)) = ok i
  model_id_at _ = panic

  abbrev pub request_at : Option (AgentEvent V) → Replayed (Option (ApprovalRequest V))
  request_at (some (approval_requested m t r)) = ok (some r)
  request_at _ = panic

  abbrev pub decision_at : Option (AgentEvent V) → Replayed (Option ApprovalDecision)
  decision_at (some (approval_resolved m t i d)) = ok (some d)
  decision_at _ = panic

  abbrev pub result_at : Option (AgentEvent V) → Replayed (Option (ToolResult V))
  result_at (some (tool_result m t r)) = ok (some r)
  result_at _ = panic

  -- What `RunReplay::approvals` and `RunReplay::errors` match on.
  abbrev pub approval_request_at : Option (AgentEvent V) → Replayed (ApprovalRequest V)
  approval_request_at (some (approval_requested m t r)) = ok r
  approval_request_at _ = panic

  abbrev pub error_at : Option (AgentEvent V) → Replayed AgentError
  error_at (some (error m t x)) = ok x
  error_at _ = panic

  -- `Option::map` over an optional index.
  abbrev pub at_index :
      {A : Type 0}
      → (Option (AgentEvent V) → Replayed (Option A))
      → List (AgentEvent V)
      → Option ℕ
      → Replayed (Option A)
  at_index f events none = ok none
  at_index f events (some i) = f (get_elem? events i)

-- The methods of `ReplayedToolCall`.
module _ {V : Type 0} (events : List (AgentEvent V)) (index : ReplayedToolCallIndex) where
  unfoldable pub turn_id : Replayed TurnId
  turn_id = requested_at (get_elem? events index.requested_event) >>= λ r. ok r.0

  unfoldable pub model_tool_call_id : Replayed ModelToolCallId
  model_tool_call_id = model_id_at (get_elem? events index.requested_event)

  unfoldable pub call : Replayed (ToolCall V)
  call = requested_at (get_elem? events index.requested_event) >>= λ r. ok r.1

  unfoldable pub approval : Replayed (Option (ApprovalRequest V))
  approval = at_index request_at events index.approval_event

  unfoldable pub approval_decision : Replayed (Option ApprovalDecision)
  approval_decision = at_index decision_at events index.approval_resolution_event

  unfoldable pub result : Replayed (Option (ToolResult V))
  result = at_index result_at events index.result_event

-- The ids of the calls without a result, in order of request.
unfoldable pub unresolved :
    {V : Type 0} → List (AgentEvent V) → List ReplayedToolCallIndex → Replayed (List ToolCallId)
unfolding call
unresolved events [] = ok []
unresolved events (index ∷ rest) = do
  ids ← unresolved events rest
  if is_none index.result_event then (do c ← call events index; ok (c.id ∷ ids)) else ok ids
