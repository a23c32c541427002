-- ===== src/Agent/Turn.antt =====
-- crates/agent-runtime/src/runtime.rs: one model turn and one tool call.
use young_agent.Prelude.{
  String, Bool, true, false, none, some, List, [], ◌∷◌, ◌++◌, map, ◌⊎◌, inl, inr, string_eq,
  contains, insert, if◌then◌else◌,
}
use young_agent.Prelude.Text.{push_str, is_blank}
use young_agent.Tool.Call.{
  ToolCall, ToolCallId, ToolResult, ToolOutput, success, failure, ToolContent, ToolError,
}
use young_agent.Tool.Call as C
use young_agent.Tool.Reason.{bound_approval_reason}
use young_agent.Tool.Prepared.{tool_error, failed}
use young_agent.Model.Stream.{ModelError, ModelToolCallId, ModelStreamEvent}
use young_agent.Model.Message.{ModelRequest, ModelMessage, ModelMessageContent, ModelToolCall}
use young_agent.Agent.Event.{
  RunId, TurnId, AgentError, ApprovalDecision, approve, deny, model_output,
}
use young_agent.Agent.Action.{pure, ◌>>=◌, ◌>>◌}
use young_agent.Agent.Runtime.{
  Collaborators, RunOutcome, Run, plain, read_stop, check_stop, emit, finish, finish_agent_error,
  finish_model_error,
}

pub data ModelTurnProgress (V : Type 0) : Type 0 where
  collected : String → List (ModelToolCall V) → ModelTurnProgress V
  finished : RunOutcome → ModelTurnProgress V

pub data ToolCallProgress (V : Type 0) : Type 0 where
  message : ModelMessage V → ToolCallProgress V
  finished : RunOutcome → ToolCallProgress V

abbrev pub fatal : String → String → AgentError
fatal code text = record { code = code; message = text; recoverable = false }

unfoldable pub normalize_approval_decision : ApprovalDecision → ApprovalDecision
unfolding bound_approval_reason is_blank
normalize_approval_decision approve = approve
normalize_approval_decision (deny reason) =
    if is_blank (bound_approval_reason reason)
    then deny "approval denied without a reason"
    else deny (bound_approval_reason reason)

module _ {V : Type 0} where
  abbrev message_content : ToolContent V → ModelMessageContent V
  message_content (C.text t) = ModelMessageContent.text t
  message_content (C.json v) = ModelMessageContent.json v

  abbrev pub tool_result_content : (ToolOutput V → V) → ToolOutput V → List (ModelMessageContent V)
  tool_result_content to_value (success content metadata extensions) = map message_content content
  tool_result_content to_value (failure e extensions) =
      ModelMessageContent.json (to_value (failure e extensions)) ∷ []

  abbrev pub deny_output : String → ToolOutput V
  deny_output reason = failed (tool_error "approval_denied" reason)

module _ {V X W : Type 0} (c : Collaborators V X W) (id : RunId) (turn : TurnId) where
  abbrev pub Turn : Type 0
  Turn = Run c (ModelTurnProgress V)

  abbrev pub end_turn : Run c RunOutcome → Turn
  end_turn m = m >>= λ outcome. pure (ModelTurnProgress.finished outcome)

  -- What follows the loop over the stream.
  unfoldable pub after_stream : String → List (ModelToolCall V) → Bool → Turn
  unfolding read_stop finish finish_agent_error
  after_stream text calls completed = read_stop c >>= λ stop. elim stop [
    | some status ↦ end_turn (finish c id status)
    | none ↦
        if completed
        then pure (ModelTurnProgress.collected text calls)
        else end_turn (
            finish_agent_error c id (some turn)
              (fatal "model_stream_incomplete" "model stream ended without a completed event"))
  ]

  -- The `match` on one event of the stream, with the rest of the loop.
  unfoldable pub take_event :
      (String → List (ModelToolCall V) → List ModelToolCallId → Turn)
      → String
      → List (ModelToolCall V)
      → List ModelToolCallId
      → ModelStreamEvent V
      → Turn
  unfolding after_stream finish_agent_error finish_model_error
  take_event next text calls ids (ModelStreamEvent.text_delta delta x) =
      next (push_str text delta) calls ids
  take_event next text calls ids (ModelStreamEvent.tool_call i name arguments x) =
      if contains ids i
      then end_turn (
          finish_agent_error c id (some turn) (
            fatal "duplicate_model_tool_call_id"
              (push_str "model emitted duplicate tool call id '" (push_str i "' in one turn"))))
      else next text (calls ++ (record { id = i; name = name; arguments = arguments }) ∷ [])
          (insert i ids)
  take_event next text calls ids (ModelStreamEvent.completed reason x) =
      after_stream text calls true
  take_event next text calls ids (ModelStreamEvent.failed e x) =
      end_turn (finish_model_error c id (some turn) e)
  take_event next text calls ids _ = next text calls ids

  -- The loop over the stream.
  unfoldable pub collect_events :
      List (ModelStreamEvent V) → String → List (ModelToolCall V) → List ModelToolCallId → Turn
  unfolding after_stream take_event check_stop emit finish
  collect_events [] text calls ids = after_stream text calls false
  collect_events (event ∷ rest) text calls ids = check_stop c >>= λ stop. elim stop [
    | some status ↦ end_turn (finish c id status)
    | none ↦ do
      emit c (model_output (plain id) turn event)
      take_event (collect_events rest) text calls ids event
  ]

  -- The `match` on what the client answers.
  unfoldable pub read_stream : ModelError ⊎ List (ModelStreamEvent V) → Turn
  unfolding collect_events read_stop finish finish_model_error
  read_stream (inr events) = collect_events events "" [] []
  read_stream (inl refusal) = read_stop c >>= λ stop. elim stop [
    | some status ↦ end_turn (finish c id status)
    | none ↦ end_turn (finish_model_error c id (some turn) refusal)
  ]

  unfoldable pub collect_model_turn : ModelRequest V → Turn
  unfolding read_stream
  collect_model_turn request s =
      let (stream, world) = c.stream s.world request in
      read_stream stream (record s { world = world })
