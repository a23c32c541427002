-- ===== src/Tests/ReplayRuns.antt =====
-- Runs of crates/event-store/src/replay.rs on small logs.
use young_agent.Prelude.{ℕ, ◌≡◌, refl, ok, err, ◌>>=◌, nat_eq}
use young_agent.Agent.Event.{RunStatus, TerminalRunStatus, approve, deny}
use young_agent.Replay.Timeline.{Replayed, ReplayError, unresolved}
use young_agent.Replay.Run.{RunReplay, replay_events}
use young_agent.Tests.Samples.{up_to_approval, decided_log, written, denied}

abbrev status_of : Replayed (RunReplay ℕ) → Replayed RunStatus
status_of r = r >>= λ x. ok x.status

awaits : status_of (replay_events up_to_approval) ≡ ok RunStatus.awaiting_approval
unfolding replay_events unresolved
awaits = refl

completes :
    status_of (replay_events (decided_log approve written))
    ≡ ok (RunStatus.finished (TerminalRunStatus.completed "bye"))
unfolding replay_events unresolved
completes = refl

denial_needs_its_result :
    status_of (replay_events (decided_log (deny "no") written))
    ≡ err (ReplayError.invalid_approval_denial_result 6 "run-tool-001")
unfolding replay_events unresolved
denial_needs_its_result = refl

denial_completes :
    status_of (replay_events (decided_log (deny "no") (denied "no")))
    ≡ ok (RunStatus.finished (TerminalRunStatus.completed "bye"))
unfolding replay_events unresolved
denial_completes = refl
