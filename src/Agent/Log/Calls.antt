-- ===== src/Agent/Log/Calls.antt =====
-- What driving a tool call of crates/agent-runtime/src/runtime.rs leaves in the log.
use young_agent.Prelude.{◌+◌, String, true, Option, none, some}
use young_agent.Tool.Call.{ToolOutput, ToolCallId, success, failure}
use young_agent.Tool.Prepared.{
  PreparedToolCall, ToolExecutionAuthorization, approval_granted, not_required,
}
use young_agent.Model.Message.{ModelMessage, ModelToolCall}
use young_agent.Agent.Event.{
  RunId, TurnId, AgentEvent, ApprovalRequest, ApprovalDecision, approve, deny, TerminalRunStatus,
  error, tool_call_requested, approval_requested, approval_resolved,
}
use young_agent.Agent.Action.{pure, ◌>>=◌, ◌>>◌}
use young_agent.Agent.Runtime.{
  Collaborators, RunState, RunOutcome, Run, plain, read_stop, check_stop, emit, emit_durable,
  finish,
}
use young_agent.Agent.Turn.{ToolCallProgress, deny_output, tool_result_content}
use young_agent.Agent.Loop.{
  Drive, end_call, report, record_output, execute, after_decision, decide, approval_request, ask,
  requested_call, drive_tool_call,
}
use young_agent.Agent.Log.Triples.{Holds-weaken, Meets, Stays, Meets-bind}
use young_agent.Agent.Log.Emits.{
  Numbered, Emitted, Closed, read_stop-Meets, check_stop-Meets, emit-Meets, emit_durable-Meets,
  finish-Meets,
}

-- A tool call that ended the run has closed its log.
abbrev pub CallClosed : {V W : Type 0} → RunId → ToolCallProgress V → RunState V W → Type 0
CallClosed id (ToolCallProgress.message m) s = Numbered s
CallClosed id (ToolCallProgress.finished outcome) s = Closed id outcome s

module _ {V X W : Type 0} (c : Collaborators V X W) (id : RunId) (turn : TurnId)
    (model_call : ModelToolCall V) where
  abbrev Ok : Drive c id turn model_call → Type 0
  Ok m = Meets Numbered (CallClosed id) m

  end_call-Meets :
      (m : Run c RunOutcome) → Meets Numbered (Closed id) m → Ok (end_call c id turn model_call m)
  end_call-Meets m h =
      Meets-bind Numbered (Closed id) (CallClosed id) m
        (λ outcome. pure (ToolCallProgress.finished outcome)) h λ outcome s k. k

  abbrev stopped :
      Drive c id turn model_call → Option TerminalRunStatus → Drive c id turn model_call
  stopped go (some status) = end_call c id turn model_call (finish c id status)
  stopped go none = go

  stopped-Meets :
      (go : Drive c id turn model_call) (stop : Option TerminalRunStatus)
      → Ok go
      → Ok (stopped go stop)
  stopped-Meets go (some status) h = end_call-Meets (finish c id status) (finish-Meets c id status)
  stopped-Meets go none h = h

  -- An event is written durably before what follows.
  after-event :
      (event : AgentEvent V) (go : Drive c id turn model_call)
      → Ok go
      → Ok (emit_durable c event >> go)
  after-event event go h =
      Meets-bind Numbered (Emitted event) (CallClosed id) (emit_durable c event) (λ _. go)
        (emit_durable-Meets c event) λ _ s k. h s k.0

  report-Meets :
      (output : ToolOutput V) → Meets Numbered (Stays Numbered) (report c id turn model_call output)
  unfolding report
  report-Meets (success content metadata extensions) = λ s h. h
  report-Meets (failure e extensions) = λ s h.
      let event =
        error (plain id) (some turn)
          (record { code = e.code; message = e.message; recoverable = true }) in
      Holds-weaken Numbered (Emitted event) (Stays Numbered) (emit c event s) (λ _ _ k. k.0)
        (emit-Meets c event s h)

  record_output-Meets :
      (call_id : ToolCallId) (output : ToolOutput V)
      → Ok (record_output c id turn model_call call_id output)
  unfolding record_output
  record_output-Meets call_id output =
      let say =
        report c id turn model_call output
        >> pure (
            ToolCallProgress.message (
              ModelMessage.tool (tool_result_content c.to_value output) model_call.name
                model_call.id)) in
      after-event _ _ (
        Meets-bind Numbered (Stays Numbered) (CallClosed id) (read_stop c) (stopped say)
          (read_stop-Meets c)
          λ stop. stopped-Meets say stop (
            Meets-bind Numbered (Stays Numbered) (CallClosed id)
              (report c id turn model_call output)
              (λ _. pure (
                ToolCallProgress.message (
                  ModelMessage.tool (tool_result_content c.to_value output) model_call.name
                    model_call.id)))
              (report-Meets output) λ _ s h. h))

  execute-Meets :
      (prepared : PreparedToolCall V) (authorization : ToolExecutionAuthorization)
      → Ok (execute c id turn model_call prepared authorization)
  unfolding execute Numbered
  execute-Meets prepared authorization =
      let go : Drive c id turn model_call = λ s.
        let (output, world) = c.execute_prepared s.world prepared authorization in
        record_output c id turn model_call prepared.call.id output (record s { world = world }) in
      Meets-bind Numbered (Stays Numbered) (CallClosed id) (check_stop c) (stopped go)
        (check_stop-Meets c)
        λ stop. stopped-Meets go stop λ s h. record_output-Meets prepared.call.id _ _ h

  after_decision-Meets :
      (prepared : PreparedToolCall V) (decision : ApprovalDecision)
      → Ok (after_decision c id turn model_call prepared decision)
  unfolding after_decision
  after_decision-Meets prepared approve = execute-Meets prepared (approval_granted prepared.call.id)
  after_decision-Meets prepared (deny reason) =
      record_output-Meets prepared.call.id (deny_output reason)

  decide-Meets :
      (request : ApprovalRequest V)
      → Meets Numbered (Stays Numbered) (decide c id turn model_call request)
  unfolding decide Numbered
  decide-Meets request s h = h

  ask-Meets :
      (prepared : PreparedToolCall V) (reason : String)
      → Ok (ask c id turn model_call prepared reason)
  unfolding ask Numbered
  ask-Meets prepared reason s h =
      let request =
        approval_request c id turn model_call (s.approval_sequence + 1) prepared reason in
      after-event (approval_requested (plain id) turn request) _
        (Meets-bind Numbered (Stays Numbered) (CallClosed id) (decide c id turn model_call request)
          (λ decision.
            read_stop c
            >>= stopped (
                emit_durable c (approval_resolved (plain id) turn request.id decision)
                >> after_decision c id turn model_call prepared decision))
          (decide-Meets request)
          λ decision.
            Meets-bind Numbered (Stays Numbered) (CallClosed id) (read_stop c)
              (stopped (
                emit_durable c (approval_resolved (plain id) turn request.id decision)
                >> after_decision c id turn model_call prepared decision))
              (read_stop-Meets c)
              λ stop.
                stopped-Meets _ stop (after-event _ _ (after_decision-Meets prepared decision)))
        (record s { approval_sequence = s.approval_sequence + 1 }) h

  by_reason-Meets :
      (prepared : PreparedToolCall V) (reason : Option String)
      → Ok (elim reason [
        | some r ↦ ask c id turn model_call prepared r
        | none ↦ execute c id turn model_call prepared not_required
      ])
  by_reason-Meets prepared (some reason) = ask-Meets prepared reason
  by_reason-Meets prepared none = execute-Meets prepared not_required

  pub drive_tool_call-Meets : Ok (drive_tool_call c id turn model_call)
  unfolding drive_tool_call Numbered
  drive_tool_call-Meets s h =
      let n = s.tool_call_sequence + 1 in
      after-event
        (tool_call_requested (plain id) turn model_call.id (requested_call c id turn model_call n))
        _
        (λ s' h'.
          by_reason-Meets (c.prepare s'.world (requested_call c id turn model_call n)) _ s' h')
        (record s { tool_call_sequence = n }) h
