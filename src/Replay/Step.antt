-- ===== src/Replay/Step.antt =====
-- crates/event-store/src/replay.rs, `replay_events_with_mode`: what one event does to the state of
-- the fold. `index` counts the events from 0 and `index + 1` is the event's number.
use young_agent.Prelude.{
  ℕ, ◌+◌, String, Bool, true, false, not, ◌&&◌, ◌||◌, List, [], ◌∷◌, ◌++◌, Option, none, some,
  is_some, is_empty, get_elem?, length, set, if◌then◌else◌, ok, err, expect, ok_or, reject_if,
  ◌>>=◌, ◌>>◌, Eq, ◌==◌, string_eq, nat_eq, option_eq, contains, insert, remove, lookup, put,
}
use young_agent.Tool.Call.{ToolCallId, ToolResult, ToolOutput, success, failure, tool_call_beq}
use young_agent.Agent.Event.{
  RunId, TurnId, AgentEvent, ApprovalRequest, ApprovalDecision, deny, TerminalRunStatus, RunStatus,
  run_started, turn_started, model_output, tool_call_requested, approval_requested,
  approval_resolved, tool_result, error, run_finished, run_id,
}
use young_agent.Replay.Timeline
use young_agent.Replay.Timeline.{Replayed, ReplayError, ReplayedToolCallIndex, unresolved}

pub data ReplayCompatibility : Type 0 where
  strict : ReplayCompatibility
  legacy_approval_without_resolution : ReplayCompatibility

pub data ApprovalLogFormat : Type 0 where
  undetermined : ApprovalLogFormat
  legacy : ApprovalLogFormat
  resolved : ApprovalLogFormat

-- The local variables of the loop.
pub record Fold : Type 0 where
  pub status : RunStatus
  pub tool_calls : List ReplayedToolCallIndex
  pub tool_call_indexes : List (ToolCallId × ℕ)
  pub approval_indexes : List (String × ℕ)
  pub pending_approvals : List ℕ
  pub approvals : List ℕ
  pub errors : List ℕ
  pub finished : Bool
  pub approval_log_format : ApprovalLogFormat
  pub started_turns : List TurnId
  pub active_turn : Option TurnId

abbrev pub initial : Fold
initial = record {
  status = RunStatus.running;
  tool_calls = [];
  tool_call_indexes = [];
  approval_indexes = [];
  pending_approvals = [];
  approvals = [];
  errors = [];
  finished = false;
  approval_log_format = undetermined;
  started_turns = [];
  active_turn = none;
}

module _ (index : ℕ) (s : Fold) where
  unfoldable pub require_active : TurnId → Replayed Fold
  require_active t =
      if not (contains s.started_turns t)
      then err (ReplayError.event_for_unknown_turn (index + 1) t)
      else if s.active_turn == some t
      then ok s
      else (do
        expected ← expect s.active_turn
        err (ReplayError.event_for_inactive_turn (index + 1) expected t))

module _ {V : Type 0} (events : List (AgentEvent V)) (index : ℕ) (s : Fold) where
  unfoldable pub start_turn : TurnId → Replayed Fold
  start_turn t = do
    reject_if (contains s.started_turns t) (ReplayError.duplicate_turn_started (index + 1) t)
    call_ids ← unresolved events s.tool_calls
    reject_if (not (is_empty call_ids))
        (ReplayError.turn_started_with_unresolved_tool_calls (index + 1) t call_ids)
    ok (record s { started_turns = insert t s.started_turns; active_turn = some t })

  -- The first `match event` of the loop.
  unfoldable pub check_turn : AgentEvent V → Replayed Fold
  unfolding start_turn require_active
  check_turn (turn_started m t) = start_turn t
  check_turn (model_output m t o) = require_active index s t
  check_turn (tool_call_requested m t i c) = require_active index s t
  check_turn (approval_requested m t r) = require_active index s t
  check_turn (approval_resolved m t i d) = require_active index s t
  check_turn (tool_result m t r) = require_active index s t
  check_turn (error m (some t) x) = require_active index s t
  check_turn (error m none x) = ok s
  check_turn (run_started m) = ok s
  check_turn (run_finished m x) = ok s

module _ (index : ℕ) (s : Fold) where
  unfoldable pub request_tool_call : ToolCallId → Replayed Fold
  request_tool_call id = do
    reject_if (is_some (lookup id s.tool_call_indexes))
        (ReplayError.duplicate_tool_call (index + 1) id)
    ok (record s {
      tool_call_indexes = put id (length s.tool_calls) s.tool_call_indexes;
      tool_calls =
          s.tool_calls
          ++ (record {
            requested_event = index;
            approval_event = none;
            approval_resolution_event = none;
            result_event = none;
          })
            ∷ [];
    })

-- `status` after an approval of call `i` is no longer pending.
abbrev pub after_approval : RunStatus → List ℕ → RunStatus
after_approval status pending = if is_empty pending then RunStatus.running else status

-- The tests on a result that carries the reserved code `approval_denied`.
module _ {V : Type 0} where
  abbrev pub is_denial : ToolOutput V → Bool
  is_denial (failure e x) = e.code == "approval_denied"
  is_denial (success c m x) = false

  abbrev pub is_odd_denial : ToolOutput V → Bool
  is_odd_denial (failure e x) = e.code == "approval_denied" && (e.retryable || not (is_empty x))
  is_odd_denial (success c m x) = false

  abbrev pub is_canonical_denial : String → ToolOutput V → Bool
  is_canonical_denial reason (failure e x) =
      e.code == "approval_denied" && e.message == reason && not e.retryable && is_empty x
  is_canonical_denial reason (success c m x) = false

  -- The `match` on the recorded decision of a call whose result arrives: the new log format.
  unfoldable pub check_result :
      ReplayCompatibility
      → ℕ
      → ApprovalLogFormat
      → Option (ApprovalRequest V)
      → Option ApprovalDecision
      → ToolResult V
      → Replayed ApprovalLogFormat
  check_result strict n format (some a) none r =
      err (ReplayError.tool_result_before_approval_resolution n r.call_id)
  check_result legacy_approval_without_resolution n resolved (some a) none r =
      err (ReplayError.tool_result_before_approval_resolution n r.call_id)
  check_result legacy_approval_without_resolution n format (some a) none r = do
    reject_if (is_odd_denial r.output) (ReplayError.invalid_approval_denial_result n r.call_id)
    ok legacy
  check_result compat n format a (some (deny reason)) r = do
    reject_if (not (is_canonical_denial reason r.output))
        (ReplayError.invalid_approval_denial_result n r.call_id)
    ok format
  check_result compat n format a d r = do
    reject_if (is_denial r.output) (ReplayError.invalid_approval_denial_result n r.call_id)
    ok format

-- A legacy log that has settled on its format takes no `ApprovalResolved`.
abbrev pub is_mixed : ReplayCompatibility → ApprovalLogFormat → Bool
is_mixed legacy_approval_without_resolution legacy = true
is_mixed compat format = false

-- `completed` and `failed`, after which no call may be left open.
abbrev pub is_closing : TerminalRunStatus → Bool
is_closing (TerminalRunStatus.completed m) = true
is_closing (TerminalRunStatus.failed x) = true
is_closing (TerminalRunStatus.interrupted r) = false
is_closing (TerminalRunStatus.cancelled r) = false

module _ {V : Type 0} ⦃e : Eq V⦄ (events : List (AgentEvent V)) (index : ℕ) (s : Fold) where
  unfoldable pub request_approval : TurnId → ApprovalRequest V → Replayed Fold
  unfolding Timeline.turn_id Timeline.call Timeline.result Timeline.approval
  request_approval t request = do
    let id = request.call.id
    i ←
        ok_or (lookup id s.tool_call_indexes)
          (ReplayError.approval_for_unknown_tool_call (index + 1) id)
    entry ← expect (get_elem? s.tool_calls i)
    expected ← Timeline.turn_id events entry
    reject_if (not (expected == t))
        (ReplayError.mismatched_tool_lifecycle_turn (index + 1) id expected t)
    requested ← Timeline.call events entry
    reject_if (not (tool_call_beq requested request.call))
        (ReplayError.approval_call_mismatch (index + 1) id)
    result ← Timeline.result events entry
    reject_if (is_some result) (ReplayError.approval_after_tool_result (index + 1) id)
    approval ← Timeline.approval events entry
    reject_if (is_some approval) (ReplayError.duplicate_approval (index + 1) id)
    reject_if (is_some (lookup request.id s.approval_indexes))
        (ReplayError.duplicate_approval_id (index + 1) request.id)
    ok (record s {
      tool_calls = set s.tool_calls i (record entry { approval_event = some index });
      approval_indexes = put request.id i s.approval_indexes;
      approvals = s.approvals ++ index ∷ [];
      pending_approvals = insert i s.pending_approvals;
      status = RunStatus.awaiting_approval;
    })

module _ {V : Type 0} (compat : ReplayCompatibility) (events : List (AgentEvent V)) (index : ℕ)
    (s : Fold) where
  unfoldable pub resolve_approval : TurnId → String → Replayed Fold
  unfolding Timeline.turn_id Timeline.call Timeline.result Timeline.approval_decision
  resolve_approval t approval_id = do
    i ←
        ok_or (lookup approval_id s.approval_indexes)
          (ReplayError.resolution_for_unknown_approval (index + 1) approval_id)
    entry ← expect (get_elem? s.tool_calls i)
    expected ← Timeline.turn_id events entry
    call ← Timeline.call events entry
    reject_if (not (expected == t))
        (ReplayError.mismatched_tool_lifecycle_turn (index + 1) call.id expected t)
    decision ← Timeline.approval_decision events entry
    reject_if (is_some decision) (ReplayError.duplicate_approval_resolution (index + 1) approval_id)
    result ← Timeline.result events entry
    reject_if (is_some result)
        (ReplayError.approval_resolution_after_tool_result (index + 1) approval_id)
    reject_if (is_mixed compat s.approval_log_format)
        (ReplayError.mixed_approval_log_formats (index + 1))
    let pending = remove i s.pending_approvals
    ok (record s {
      approval_log_format = resolved;
      tool_calls = set s.tool_calls i (record entry { approval_resolution_event = some index });
      pending_approvals = pending;
      status = after_approval s.status pending;
    })

  unfoldable pub record_result : TurnId → ToolResult V → Replayed Fold
  unfolding Timeline.turn_id Timeline.result Timeline.approval Timeline.approval_decision
      check_result
  record_result t r = do
    i ←
        ok_or (lookup r.call_id s.tool_call_indexes)
          (ReplayError.result_for_unknown_tool_call (index + 1) r.call_id)
    entry ← expect (get_elem? s.tool_calls i)
    expected ← Timeline.turn_id events entry
    reject_if (not (expected == t))
        (ReplayError.mismatched_tool_lifecycle_turn (index + 1) r.call_id expected t)
    result ← Timeline.result events entry
    reject_if (is_some result) (ReplayError.duplicate_tool_result (index + 1) r.call_id)
    decision ← Timeline.approval_decision events entry
    approval ← Timeline.approval events entry
    format ← check_result compat (index + 1) s.approval_log_format approval decision r
    let pending = remove i s.pending_approvals
    ok (record s {
      approval_log_format = format;
      tool_calls = set s.tool_calls i (record entry { result_event = some index });
      pending_approvals = pending;
      status = after_approval s.status pending;
    })

module _ {V : Type 0} (events : List (AgentEvent V)) (index : ℕ) (s : Fold) where
  unfoldable pub finish_run : TerminalRunStatus → Replayed Fold
  finish_run terminal = do
    call_ids ← if is_closing terminal then unresolved events s.tool_calls else ok []
    reject_if (not (is_empty call_ids))
        (ReplayError.terminal_with_unresolved_tool_calls (index + 1) call_ids)
    ok (record s { status = RunStatus.finished terminal; finished = true })

module _ {V : Type 0} ⦃e : Eq V⦄ (compat : ReplayCompatibility) (events : List (AgentEvent V)) where
  -- The second `match event` of the loop.
  unfoldable pub apply_event : ℕ → Fold → AgentEvent V → Replayed Fold
  unfolding request_tool_call request_approval resolve_approval record_result finish_run
  apply_event index s (run_started m) = err (ReplayError.duplicate_run_started (index + 1))
  apply_event index s (tool_call_requested m t i c) = request_tool_call index s c.id
  apply_event index s (approval_requested m t r) = request_approval events index s t r
  apply_event index s (approval_resolved m t id d) = resolve_approval compat events index s t id
  apply_event index s (tool_result m t r) = record_result compat events index s t r
  apply_event index s (error m t x) = ok (record s { errors = s.errors ++ index ∷ [] })
  apply_event index s (run_finished m x) = finish_run events index s x
  apply_event index s (turn_started m t) = ok s
  apply_event index s (model_output m t o) = ok s

  -- One iteration of the loop.
  unfoldable pub step : RunId → ℕ → Fold → AgentEvent V → Replayed Fold
  unfolding check_turn apply_event
  step expected index s event = do
    reject_if s.finished (ReplayError.event_after_run_finished (index + 1))
    reject_if (not (run_id event == expected))
        (ReplayError.mismatched_run_id (index + 1) expected (run_id event))
    s' ← check_turn events index s event
    apply_event index s' event
