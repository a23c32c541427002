-- ===== src/Agent/Loop.antt =====
-- crates/agent-runtime/src/runtime.rs: `drive_tool_call` and the loop over the turns.
use young_agent.Prelude.{
  ℕ, zero, suc, ◌+◌, String, true, none, some, List, [], ◌∷◌, ◌++◌, is_empty, if◌then◌else◌,
  Outcome, ok, err, panic, ◌==◌, string_eq,
}
use young_agent.Prelude.Text.{push_str}
use young_agent.Prelude.Decimal.{decimal_03}
use young_agent.Tool.Call.{ToolCall, ToolCallId, ToolOutput, success, failure, Extensions}
use young_agent.Tool.Prepared.{
  PreparedToolCall, ToolExecutionAuthorization, not_required, approval_granted, approval_reason,
}
use young_agent.Model.Message.{
  ModelRequest, ModelMessage, ModelToolCall, ModelToolSpec, assistant_with_tool_calls,
  assistant_tool_calls,
}
use young_agent.Agent.Event.{
  RunId, TurnId, ApprovalRequest, ApprovalDecision, approve, deny, TerminalRunStatus, run_started,
  turn_started, tool_call_requested, approval_requested, approval_resolved, tool_result, error,
}
use young_agent.Agent.Action.{pure, ◌>>=◌, ◌>>◌}
use young_agent.Agent.Stop.{RunStopToken, bind}
use young_agent.Agent.Runtime.{
  Collaborators, RunState, RunOutcome, Run, AgentRuntimeError, runtime_already_used,
  stop_token_already_bound, plain, read_stop, check_stop, emit, emit_durable, finish,
  finish_agent_error,
}
use young_agent.Agent.Turn.{
  ModelTurnProgress, ToolCallProgress, fatal, normalize_approval_decision, tool_result_content,
  deny_output, collect_model_turn,
}

pub record RunRequest (V : Type 0) : Type 0 where
  pub id : RunId
  pub model : String
  pub messages : List (ModelMessage V)
  pub tools : List (ModelToolSpec V)
  pub metadata : Extensions V

-- `MAX_TURNS`
abbrev pub max_turns : ℕ
max_turns = 128

abbrev pub with_message : {V : Type 0} → ModelRequest V → ModelMessage V → ModelRequest V
with_message request m = record request { messages = request.messages ++ m ∷ [] }

module _ {V X W : Type 0} (c : Collaborators V X W) (id : RunId) (turn : TurnId)
    (model_call : ModelToolCall V) where
  abbrev pub Drive : Type 0
  Drive = Run c (ToolCallProgress V)

  abbrev pub end_call : Run c RunOutcome → Drive
  end_call m = m >>= λ outcome. pure (ToolCallProgress.finished outcome)

  -- The `Error` event that follows a failed output.
  unfoldable pub report : ToolOutput V → Run c (Unit {0})
  unfolding emit
  report (success content metadata extensions) = pure tt
  report (failure e extensions) = emit c (
      error (plain id) (some turn)
        (record { code = e.code; message = e.message; recoverable = true }))

  -- What follows the output of the call.
  unfoldable pub record_output : ToolCallId → ToolOutput V → Drive
  unfolding emit_durable read_stop finish report
  record_output call_id output = do
    emit_durable c (tool_result (plain id) turn (record { call_id = call_id; output = output }))
    stop ← read_stop c
    elim stop [
      | some status ↦ end_call (finish c id status)
      | none ↦ do
        report output
        pure (
            ToolCallProgress.message (
              ModelMessage.tool (tool_result_content c.to_value output) model_call.name
                model_call.id))
    ]

  -- The last checkpoint before the dispatcher executes the plan.
  unfoldable pub execute : PreparedToolCall V → ToolExecutionAuthorization → Drive
  unfolding check_stop finish record_output
  execute prepared authorization = check_stop c >>= λ stop. elim stop [
    | some status ↦ end_call (finish c id status)
    | none ↦ λ s.
        let (output, world) = c.execute_prepared s.world prepared authorization in
        record_output prepared.call.id output (record s { world = world })
  ]

  unfoldable pub after_decision : PreparedToolCall V → ApprovalDecision → Drive
  unfolding execute record_output
  after_decision prepared approve = execute prepared (approval_granted prepared.call.id)
  after_decision prepared (deny reason) = record_output prepared.call.id (deny_output reason)

  unfoldable pub decide : ApprovalRequest V → Run c ApprovalDecision
  unfolding normalize_approval_decision
  decide request s =
      let (decision, world) = c.decide_approval s.world request in
      (ok (normalize_approval_decision decision), record s { world = world })

  abbrev pub approval_request : ℕ → PreparedToolCall V → String → ApprovalRequest V
  approval_request n prepared reason = record {
    id = push_str id (push_str "-approval-" (decimal_03 n));
    call = prepared.call;
    reason = reason;
  }

  unfoldable pub ask : PreparedToolCall V → String → Drive
  unfolding emit_durable decide read_stop finish after_decision decimal_03
  ask prepared reason = do
    n ← (λ s.
        (ok (s.approval_sequence + 1), record s { approval_sequence = s.approval_sequence + 1 }))
    let request = approval_request n prepared reason
    emit_durable c (approval_requested (plain id) turn request)
    decision ← decide request
    stop ← read_stop c
    elim stop [
      | some status ↦ end_call (finish c id status)
      | none ↦ do
        emit_durable c (approval_resolved (plain id) turn request.id decision)
        after_decision prepared decision
    ]

  abbrev pub requested_call : ℕ → ToolCall V
  requested_call n = record {
    id = push_str id (push_str "-tool-" (decimal_03 n));
    tool_name = model_call.name;
    arguments = model_call.arguments;
  }

  unfoldable pub drive_tool_call : Drive
  unfolding emit_durable ask execute decimal_03
  drive_tool_call = do
    n ← (λ s.
        (ok (s.tool_call_sequence + 1), record s { tool_call_sequence = s.tool_call_sequence + 1 }))
    emit_durable c (tool_call_requested (plain id) turn model_call.id (requested_call n))
    prepared ← (λ s. (ok (c.prepare s.world (requested_call n)), s))
    elim (approval_reason prepared) [
      | some reason ↦ ask prepared reason
      | none ↦ execute prepared not_required
    ]

module _ {V X W : Type 0} (c : Collaborators V X W) (id : RunId) where
  -- The loop over the tool calls of a turn, and then what follows the turn.
  unfoldable pub drive_tool_calls :
      TurnId
      → (ModelRequest V → Run c RunOutcome)
      → ModelRequest V
      → List (ModelToolCall V)
      → Run c RunOutcome
  unfolding drive_tool_call
  drive_tool_calls turn next request [] = next request
  drive_tool_calls turn next request (call ∷ rest) = drive_tool_call c id turn call >>= λ progress.
      elim progress [
        | ToolCallProgress.message m ↦ drive_tool_calls turn next (with_message request m) rest
        | ToolCallProgress.finished outcome ↦ pure outcome
      ]

  abbrev pub assistant_message : String → List (ModelToolCall V) → ModelMessage V
  assistant_message text calls =
      if text == "" then assistant_tool_calls calls else assistant_with_tool_calls text calls

  -- The loop over the turns that are left, the next of which has the number `n`.
  unfoldable pub run_turns : ℕ → ℕ → ModelRequest V → Run c RunOutcome
  unfolding check_stop finish emit collect_model_turn drive_tool_calls finish_agent_error decimal_03
  run_turns zero n request =
      finish_agent_error c id none
        (fatal "turn_limit_reached" "Agent Run exceeded the 128-turn safety limit")
  run_turns (suc left) n request = check_stop c >>= λ stop. elim stop [
    | some status ↦ finish c id status
    | none ↦ do
      let turn = push_str "turn-" (decimal_03 n)
      emit c (turn_started (plain id) turn)
      progress ← collect_model_turn c id turn request
      elim progress [
        | ModelTurnProgress.finished outcome ↦ pure outcome
        | ModelTurnProgress.collected text calls ↦
            if is_empty calls
            then finish c id (TerminalRunStatus.completed text)
            else drive_tool_calls turn (run_turns left (n + 1))
                (with_message request (assistant_message text calls)) calls
      ]
  ]

abbrev pub model_request : {V : Type 0} → RunRequest V → ModelRequest V
model_request request = record {
  model = request.model;
  messages = request.messages;
  tools = request.tools;
  metadata = request.metadata;
}

module _ {V X W : Type 0} (c : Collaborators V X W) where
  abbrev pub bound_by :
      RunId
      → RunState V W
      → Outcome RunId RunStopToken
      → Outcome (AgentRuntimeError V X) (Unit {0}) × RunState V W
  bound_by id s (ok token) = (ok tt, record s { token = token; started_run_id = some id })
  bound_by id s (err other) = (err (stop_token_already_bound other), s)
  bound_by id s panic = (panic, s)

  -- The token is bound to the run, if no other run has it.
  unfoldable pub bind_token : RunId → Run c (Unit {0})
  unfolding bind
  bind_token id s = bound_by id s (bind id s.token)

  unfoldable pub run_with_control_and_stop : RunRequest V → Run c RunOutcome
  unfolding bind_token emit run_turns
  run_with_control_and_stop request s = elim s.started_run_id [
    | some other ↦ (err (runtime_already_used other), s)
    | none ↦
        (do
          bind_token request.id
          emit c (run_started (plain request.id))
          run_turns c request.id max_turns 1 (model_request request))
          s
  ]
