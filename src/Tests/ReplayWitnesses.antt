-- ===== src/Tests/ReplayWitnesses.antt =====
-- The theorems on crates/event-store/src/replay.rs at one log: a run whose one call is requested,
-- approved and answered, and which then completes.
use young_agent.Prelude.{
  ℕ, List, [], ◌∷◌, ◌≡◌, some, true, false, refl, map, ok, All, Both, Distinct, nat_eq, string_eq,
}
use young_agent.Agent.Event.{
  AgentEvent, approve, RunStatus, TerminalRunStatus, run_id, run_started, turn_started,
  tool_call_requested, approval_requested, approval_resolved, run_finished,
}
use young_agent.Replay.Timeline.{unresolved}
use young_agent.Replay.Step.{strict}
use young_agent.Replay.Run.{RunReplay, replay_events_with_mode}
use young_agent.Replay.Spec.{RunView, open_calls, summary}
use young_agent.Replay.View.{view}
use young_agent.Replay.Refine.Whole.{Shows, replay-refines}
use young_agent.Replay.Accepted.Sound.{CallSettled, call_id, request_id}
use young_agent.Replay.Accepted.Contents.{all_of, requested, asked, raised, call_of}
use young_agent.Replay.Accepted.Guarantees.{
  results_agree, ids_apart, closed_runs, shows_contents, one_run, prefix_accepted, finish_is_last,
}
use young_agent.Tests.Samples.{at_run, sample_call, sample_request, decided_log, result_of, written}

abbrev sample_log : List (AgentEvent ℕ)
sample_log = decided_log approve written

abbrev sample_rest : List (AgentEvent ℕ)
sample_rest =
    approval_requested at_run "turn-001" sample_request
    ∷ approval_resolved at_run "turn-001" "run-approval-001" approve
    ∷ result_of written
    ∷ run_finished at_run (TerminalRunStatus.completed "bye")
    ∷ []

abbrev sample_replay : RunReplay ℕ
sample_replay = record {
  id = "run";
  status = RunStatus.finished (TerminalRunStatus.completed "bye");
  events = sample_log;
  tool_calls =
      (record {
        requested_event = 2;
        approval_event = some 3;
        approval_resolution_event = some 4;
        result_event = some 5;
      })
      ∷ [];
  approvals = 3 ∷ [];
  errors = [];
}

sample_accepted : replay_events_with_mode sample_log false strict ≡ ok sample_replay
unfolding replay_events_with_mode unresolved
sample_accepted = refl

replay-refines_example :
    Both Shows (replay_events_with_mode sample_log true strict) (summary sample_log true strict)
replay-refines_example = replay-refines sample_log true strict

results_agree_example : (v : RunView ℕ) × (view sample_replay ≡ ok v) × All CallSettled v.calls
results_agree_example = results_agree sample_log false sample_replay sample_accepted

ids_apart_example :
    (v : RunView ℕ) × (view sample_replay ≡ ok v)
    × Distinct (map call_id v.calls)
    × Distinct (map request_id v.requests)
ids_apart_example = ids_apart sample_log false sample_replay sample_accepted

closed_runs_example : (v : RunView ℕ) × (view sample_replay ≡ ok v) × (open_calls v.calls ≡ [])
closed_runs_example =
    closed_runs sample_log false sample_replay sample_accepted (TerminalRunStatus.completed "bye")
      refl refl

shows_contents_example :
    (v : RunView ℕ) × (view sample_replay ≡ ok v)
    × (map call_of v.calls ≡ all_of requested sample_log)
    × (v.requests ≡ all_of asked sample_log)
    × (v.errors ≡ all_of raised sample_log)
shows_contents_example = shows_contents sample_log false sample_replay sample_accepted

one_run_example : All (λ (event : AgentEvent ℕ). run_id event ≡ "run") sample_log
one_run_example = one_run sample_log false sample_replay sample_accepted

abbrev sample_front : List (AgentEvent ℕ)
sample_front =
    turn_started at_run "turn-001"
    ∷ tool_call_requested at_run "turn-001" "model-1" sample_call
    ∷ []

prefix_accepted_example :
    (r : RunReplay ℕ) × (replay_events_with_mode (run_started at_run ∷ sample_front) true strict
      ≡ ok r)
prefix_accepted_example =
    prefix_accepted (run_started at_run) sample_front sample_rest false true sample_replay
      sample_accepted

abbrev sample_body : List (AgentEvent ℕ)
sample_body =
    turn_started at_run "turn-001"
    ∷ tool_call_requested at_run "turn-001" "model-1" sample_call
    ∷ approval_requested at_run "turn-001" sample_request
    ∷ approval_resolved at_run "turn-001" "run-approval-001" approve
    ∷ result_of written
    ∷ []

abbrev no_events : List (AgentEvent ℕ)
no_events = []

finish_is_last_example : no_events ≡ []
finish_is_last_example =
    finish_is_last (run_started at_run) sample_body no_events at_run
      (TerminalRunStatus.completed "bye") false sample_replay sample_accepted
