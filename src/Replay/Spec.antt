-- ===== src/Replay/Spec.antt =====
-- What an event log means, with no index into the log: the history of every tool call and approval
-- by value, and a status read off them. crates/event-store/src/replay.rs keeps indices, hash maps,
-- a set of pending approvals and a running status instead.
use young_agent.Prelude.{
  ℕ, suc, String, Bool, true, false, not, ◌&&◌, List, [], ◌∷◌, ◌++◌, Option, none, some, is_some,
  is_none, is_empty, any, find, adjust, if◌then◌else◌, ok, err, ok_or, reject_if, ◌>>=◌, ◌>>◌, Eq,
  ◌==◌, string_eq, contains,
}
use young_agent.Tool.Call.{ToolCallId, ToolCall, ToolResult, tool_call_beq}
use young_agent.Agent.Event.{
  RunId, TurnId, AgentEvent, AgentError, ApprovalRequest, ApprovalDecision, TerminalRunStatus,
  RunStatus, run_started, turn_started, model_output, tool_call_requested, approval_requested,
  approval_resolved, tool_result, error, run_finished, run_id,
}
use young_agent.Replay.Timeline.{Replayed, ReplayError}
use young_agent.Replay.Run.{started_run, check_compatibility, skip_first}
use young_agent.Replay.Step.{
  ReplayCompatibility, ApprovalLogFormat, undetermined, resolved, check_result, is_mixed,
  is_closing,
}

-- All that a log says of one tool call.
pub record CallHistory (V : Type 0) : Type 0 where
  pub turn : TurnId
  pub call : ToolCall V
  pub approval : Option (ApprovalRequest V)
  pub decision : Option ApprovalDecision
  pub result : Option (ToolResult V)

-- `turns` has the latest first: it is the active one.
pub record RunHistory (V : Type 0) : Type 0 where
  pub turns : List TurnId
  pub calls : List (CallHistory V)
  pub requests : List (ApprovalRequest V)
  pub errors : List AgentError
  pub format : ApprovalLogFormat
  pub ending : Option TerminalRunStatus

abbrev pub blank : {V : Type 0} → RunHistory V
blank = record {
  turns = [];
  calls = [];
  requests = [];
  errors = [];
  format = undetermined;
  ending = none;
}

module _ {V : Type 0} where
  abbrev pub has_id : ToolCallId → CallHistory V → Bool
  has_id id c = id == c.call.id

  abbrev pub asks : String → Option (ApprovalRequest V) → Bool
  asks id none = false
  asks id (some r) = id == r.id

  abbrev pub has_approval : String → CallHistory V → Bool
  has_approval id c = asks id c.approval

  -- The call waits for a decision.
  abbrev pub is_pending : CallHistory V → Bool
  is_pending c = is_some c.approval && is_none c.decision && is_none c.result

  abbrev pub open_calls : List (CallHistory V) → List ToolCallId
  open_calls [] = []
  open_calls (c ∷ rest) = if is_none c.result then c.call.id ∷ open_calls rest else open_calls rest

  abbrev pub status_of : RunHistory V → RunStatus
  status_of h = elim h.ending [
    | some x ↦ RunStatus.finished x
    | none ↦ if any is_pending h.calls then RunStatus.awaiting_approval else RunStatus.running
  ]

module _ (n : ℕ) where
  abbrev pub in_latest : TurnId → List TurnId → Replayed (Unit {0})
  in_latest t [] = err (ReplayError.event_for_unknown_turn n t)
  in_latest t (latest ∷ earlier) = do
    reject_if (not (contains (latest ∷ earlier) t)) (ReplayError.event_for_unknown_turn n t)
    reject_if (not (latest == t)) (ReplayError.event_for_inactive_turn n latest t)

module _ {V : Type 0} (n : ℕ) (h : RunHistory V) where
  unfoldable pub note_turn : TurnId → Replayed (RunHistory V)
  note_turn t = do
    reject_if (contains h.turns t) (ReplayError.duplicate_turn_started n t)
    reject_if (not (is_empty (open_calls h.calls)))
        (ReplayError.turn_started_with_unresolved_tool_calls n t (open_calls h.calls))
    ok (record h { turns = t ∷ h.turns })

  -- The turn that an event must belong to, and what a new turn requires.
  unfoldable pub note_place : AgentEvent V → Replayed (RunHistory V)
  unfolding note_turn
  note_place (turn_started m t) = note_turn t
  note_place (model_output m t o) = in_latest n t h.turns >> ok h
  note_place (tool_call_requested m t i c) = in_latest n t h.turns >> ok h
  note_place (approval_requested m t r) = in_latest n t h.turns >> ok h
  note_place (approval_resolved m t i d) = in_latest n t h.turns >> ok h
  note_place (tool_result m t r) = in_latest n t h.turns >> ok h
  note_place (error m (some t) x) = in_latest n t h.turns >> ok h
  note_place (error m none x) = ok h
  note_place (run_started m) = ok h
  note_place (run_finished m x) = ok h

  unfoldable pub note_call : TurnId → ToolCall V → Replayed (RunHistory V)
  note_call t c = do
    reject_if (is_some (find (has_id c.id) h.calls)) (ReplayError.duplicate_tool_call n c.id)
    ok (record h {
      calls =
          h.calls
          ++ (record { turn = t; call = c; approval = none; decision = none; result = none }) ∷ [];
    })

  unfoldable pub note_request : ⦃e : Eq V⦄ → TurnId → ApprovalRequest V → Replayed (RunHistory V)
  note_request t request = do
    c ←
        ok_or (find (has_id request.call.id) h.calls)
          (ReplayError.approval_for_unknown_tool_call n request.call.id)
    reject_if (not (c.turn == t))
        (ReplayError.mismatched_tool_lifecycle_turn n request.call.id c.turn t)
    reject_if (not (tool_call_beq c.call request.call))
        (ReplayError.approval_call_mismatch n request.call.id)
    reject_if (is_some c.result) (ReplayError.approval_after_tool_result n request.call.id)
    reject_if (is_some c.approval) (ReplayError.duplicate_approval n request.call.id)
    reject_if (is_some (find (has_approval request.id) h.calls))
        (ReplayError.duplicate_approval_id n request.id)
    ok (record h {
      calls = adjust (has_id request.call.id) (λ x. record x { approval = some request }) h.calls;
      requests = h.requests ++ request ∷ [];
    })

  unfoldable pub note_decision :
      ReplayCompatibility → TurnId → String → ApprovalDecision → Replayed (RunHistory V)
  note_decision compat t id decision = do
    c ← ok_or (find (has_approval id) h.calls) (ReplayError.resolution_for_unknown_approval n id)
    reject_if (not (c.turn == t)) (ReplayError.mismatched_tool_lifecycle_turn n c.call.id c.turn t)
    reject_if (is_some c.decision) (ReplayError.duplicate_approval_resolution n id)
    reject_if (is_some c.result) (ReplayError.approval_resolution_after_tool_result n id)
    reject_if (is_mixed compat h.format) (ReplayError.mixed_approval_log_formats n)
    ok (record h {
      calls = adjust (has_approval id) (λ x. record x { decision = some decision }) h.calls;
      format = resolved;
    })

  unfoldable pub note_result : ReplayCompatibility → TurnId → ToolResult V → Replayed (RunHistory V)
  note_result compat t r = do
    c ←
        ok_or (find (has_id r.call_id) h.calls)
          (ReplayError.result_for_unknown_tool_call n r.call_id)
    reject_if (not (c.turn == t)) (ReplayError.mismatched_tool_lifecycle_turn n r.call_id c.turn t)
    reject_if (is_some c.result) (ReplayError.duplicate_tool_result n r.call_id)
    format ← check_result compat n h.format c.approval c.decision r
    ok (record h {
      calls = adjust (has_id r.call_id) (λ x. record x { result = some r }) h.calls;
      format = format;
    })

  unfoldable pub note_ending : TerminalRunStatus → Replayed (RunHistory V)
  note_ending x = do
    reject_if (is_closing x && not (is_empty (open_calls h.calls)))
        (ReplayError.terminal_with_unresolved_tool_calls n (open_calls h.calls))
    ok (record h { ending = some x })

module _ {V : Type 0} ⦃e : Eq V⦄ (compat : ReplayCompatibility) where
  unfoldable pub note : ℕ → RunHistory V → AgentEvent V → Replayed (RunHistory V)
  unfolding note_call note_request note_decision note_result note_ending
  note n h (run_started m) = err (ReplayError.duplicate_run_started n)
  note n h (tool_call_requested m t i c) = note_call n h t c
  note n h (approval_requested m t r) = note_request n h t r
  note n h (approval_resolved m t id d) = note_decision n h compat t id d
  note n h (tool_result m t r) = note_result n h compat t r
  note n h (error m t x) = ok (record h { errors = h.errors ++ x ∷ [] })
  note n h (run_finished m x) = note_ending n h x
  note n h (turn_started m t) = ok h
  note n h (model_output m t o) = ok h

  unfoldable pub advance : RunId → ℕ → RunHistory V → AgentEvent V → Replayed (RunHistory V)
  unfolding note_place note
  advance expected n h event = do
    reject_if (is_some h.ending) (ReplayError.event_after_run_finished n)
    reject_if (not (run_id event == expected))
        (ReplayError.mismatched_run_id n expected (run_id event))
    h' ← note_place n h event
    note n h' event

  unfoldable pub history : RunId → ℕ → List (AgentEvent V) → RunHistory V → Replayed (RunHistory V)
  unfolding advance
  history expected n [] h = ok h
  history expected n (event ∷ rest) h =
      advance expected n h event >>= λ h'. history expected (suc n) rest h'

-- What the accessors of a `RunReplay` show.
pub record RunView (V : Type 0) : Type 0 where
  pub id : RunId
  pub status : RunStatus
  pub events : List (AgentEvent V)
  pub calls : List (CallHistory V)
  pub requests : List (ApprovalRequest V)
  pub errors : List AgentError

-- Open calls of a stopped run that neither ended nor waits for a decision are recovery work.
abbrev pub with_open : RunStatus → List ToolCallId → RunStatus
with_open RunStatus.running ids =
    if is_empty ids then RunStatus.running else RunStatus.recovery_required ids
with_open status ids = status

module _ {V : Type 0} where
  abbrev pub recovered_status : Bool → RunHistory V → RunStatus
  recovered_status false h = status_of h
  recovered_status true h = with_open (status_of h) (open_calls h.calls)

  unfoldable pub summary :
      ⦃e : Eq V⦄ → List (AgentEvent V) → Bool → ReplayCompatibility → Replayed (RunView V)
  unfolding started_run check_compatibility history
  summary events detect_recovery compat = do
    expected ← started_run events
    check_compatibility compat events
    h ← history compat expected 2 (skip_first events) blank
    ok (record {
      id = expected;
      status = recovered_status detect_recovery h;
      events = events;
      calls = h.calls;
      requests = h.requests;
      errors = h.errors;
    })
