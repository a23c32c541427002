-- ===== src/Replay/Run.antt =====
-- crates/event-store/src/replay.rs: the fold over a whole log, its entry points and the replay model.
use young_agent.Prelude.{
  ℕ, suc, ◌+◌, Bool, true, false, List, [], ◌∷◌, Option, none, some, is_empty, ok, ◌>>◌,
  if◌then◌else◌, err, ◌>>=◌, Eq,
}
use young_agent.Tool.Call.{ToolCallId}
use young_agent.Agent.Event.{
  RunId, AgentEvent, RunStatus, TerminalRunStatus, run_started, event_sequence,
}
use young_agent.Replay.Timeline.{Replayed, ReplayError, ReplayedToolCallIndex, unresolved}
use young_agent.Replay.Step.{
  ReplayCompatibility, strict, legacy_approval_without_resolution, Fold, initial, step,
}

pub record RunReplay (V : Type 0) : Type 0 where
  pub id : RunId
  pub status : RunStatus
  pub events : List (AgentEvent V)
  pub tool_calls : List ReplayedToolCallIndex
  pub approvals : List ℕ
  pub errors : List ℕ

-- `RunReplay::terminal_status`
abbrev pub terminal_status : {V : Type 0} → RunReplay V → Option TerminalRunStatus
terminal_status r = elim r.status [ RunStatus.finished x ↦ some x | _ ↦ none ]

module _ {V : Type 0} where
  -- The position of the first event that carries a sequence number.
  unfoldable pub first_sequenced : ℕ → List (AgentEvent V) → Option ℕ
  first_sequenced index [] = none
  first_sequenced index (event ∷ rest) = elim (event_sequence event) [
    | none ↦ first_sequenced (suc index) rest
    | some n ↦ some index
  ]

  -- The test on legacy compatibility before the loop.
  unfoldable pub check_compatibility :
      ReplayCompatibility → List (AgentEvent V) → Replayed (Unit {0})
  unfolding first_sequenced
  check_compatibility strict events = ok tt
  check_compatibility legacy_approval_without_resolution events = elim (first_sequenced 0 events) [
    | none ↦ ok tt
    | some index ↦ err (ReplayError.legacy_compatibility_for_sequenced_log (index + 1))
  ]

  -- The run id of the first event.
  unfoldable pub started_run : List (AgentEvent V) → Replayed RunId
  started_run [] = err ReplayError.empty_log
  started_run (run_started m ∷ rest) = ok m.run_id
  started_run (event ∷ rest) = err ReplayError.first_event_is_not_run_started

-- The status of a run that has stopped, given the calls it leaves open: only a running one becomes
-- recovery work.
abbrev pub recover : RunStatus → Replayed (List ToolCallId) → Replayed RunStatus
recover RunStatus.running ids = ids >>= λ call_ids.
    ok (if is_empty call_ids then RunStatus.running else RunStatus.recovery_required call_ids)
recover status ids = ok status

-- The status after the loop.
unfoldable pub recovered : {V : Type 0} → Bool → List (AgentEvent V) → Fold → Replayed RunStatus
recovered true events s = recover s.status (unresolved events s.tool_calls)
recovered false events s = ok s.status

module _ {V : Type 0} where
  abbrev pub skip_first : List (AgentEvent V) → List (AgentEvent V)
  skip_first [] = []
  skip_first (x ∷ xs) = xs

module _ {V : Type 0} ⦃e : Eq V⦄ where
  -- The loop over the events from `index` on.
  unfoldable pub fold_events :
      ReplayCompatibility
      → List (AgentEvent V)
      → RunId
      → ℕ
      → List (AgentEvent V)
      → Fold
      → Replayed Fold
  unfolding step
  fold_events compat events expected index [] s = ok s
  fold_events compat events expected index (event ∷ rest) s =
      step compat events expected index s event >>= λ s'.
      fold_events compat events expected (suc index) rest s'

  unfoldable pub replay_events_with_mode :
      List (AgentEvent V) → Bool → ReplayCompatibility → Replayed (RunReplay V)
  unfolding started_run check_compatibility fold_events recovered
  replay_events_with_mode events detect_recovery compat = do
    expected ← started_run events
    check_compatibility compat events
    s ← fold_events compat events expected 1 (skip_first events) initial
    status ← recovered detect_recovery events s
    ok (record {
      id = expected;
      status = status;
      events = events;
      tool_calls = s.tool_calls;
      approvals = s.approvals;
      errors = s.errors;
    })

  unfoldable pub replay_events : List (AgentEvent V) → Replayed (RunReplay V)
  unfolding replay_events_with_mode
  replay_events events = replay_events_with_mode events false strict

  unfoldable pub replay_events_for_recovery : List (AgentEvent V) → Replayed (RunReplay V)
  unfolding replay_events_with_mode
  replay_events_for_recovery events = replay_events_with_mode events true strict

  unfoldable pub replay_events_with_compatibility :
      List (AgentEvent V) → ReplayCompatibility → Replayed (RunReplay V)
  unfolding replay_events_with_mode
  replay_events_with_compatibility events compat = replay_events_with_mode events false compat
