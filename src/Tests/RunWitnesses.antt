-- ===== src/Tests/RunWitnesses.antt =====
-- The theorems on crates/agent-runtime/src/runtime.rs at two runs: one whose model calls a tool, which
-- needs approval, and then completes, and one whose sink fails at the second event.
use young_agent.Prelude.{
  ℕ, ◌+◌, String, ◌≡◌, refl, none, some, List, [], ◌∷◌, ok, err, inr, eqb, ltb, if◌then◌else◌,
}
use young_agent.Tool.Call.{text, success}
use young_agent.Tool.Prepared.{ToolExecutionDisposition}
use young_agent.Model.Stream.{ModelStreamEvent}
use young_agent.Agent.Event.{approve, run_finished, TerminalRunStatus, turn_started}
use young_agent.Agent.Stop.{unused, continue}
use young_agent.Agent.Runtime.{
  Collaborators, RunState, RunOutcome, AgentRuntimeError, event_persistence_indeterminate, buffered,
  plain, new_runtime,
}
use young_agent.Agent.Loop.{RunRequest, run_with_control_and_stop}
use young_agent.Agent.Log.Emits.{EndsWith, Counts}
use young_agent.Agent.Log.Whole.{run_closes, run_fails}

-- The world counts the turns that the model has answered and the events that the sink has taken.
abbrev answers : ℕ → List (ModelStreamEvent ℕ)
answers turn =
    if eqb turn 0
    then ModelStreamEvent.tool_call "model-1" "write" 7 [] ∷ ModelStreamEvent.completed none [] ∷ []
    else ModelStreamEvent.text_delta "bye" [] ∷ ModelStreamEvent.completed none [] ∷ []

-- The sink fails where it has taken `room` events.
abbrev sample_world : ℕ → Collaborators ℕ String (ℕ × ℕ)
sample_world room = record {
  stream = λ w request. (inr (answers w.0), (w.0 + 1, w.1));
  prepare = λ w call. record {
    dispatcher_identity = 1;
    call = call;
    disposition = ToolExecutionDisposition.requires_approval "writes";
  };
  execute_prepared = λ w prepared authorization. (success (text "done" ∷ []) [] [], w);
  append = λ durability w sequence event.
      if ltb w.1 room then (none, (w.0, w.1 + 1)) else (some "disk full", w);
  checkpoint = λ w. (continue, w);
  decide_approval = λ w request. (approve, w);
  meanwhile = λ w. ([], w);
  to_value = λ output. 0;
}

abbrev sample_request : RunRequest ℕ
sample_request = record { id = "run"; model = "m"; messages = []; tools = []; metadata = [] }

-- The state in which the run returns.
unfoldable sample_end : ℕ → RunState ℕ (ℕ × ℕ)
unfolding run_with_control_and_stop
sample_end room =
    (run_with_control_and_stop (sample_world room) sample_request (new_runtime unused (0, 0))).1

abbrev sample_bye : RunOutcome
sample_bye = record { status = TerminalRunStatus.completed "bye" }

sample_completes :
    run_with_control_and_stop (sample_world 100) sample_request (new_runtime unused (0, 0))
    ≡ (ok sample_bye, sample_end 100)
unfolding sample_end run_with_control_and_stop
sample_completes = refl

abbrev disk_full : AgentRuntimeError ℕ String
disk_full =
    event_persistence_indeterminate 2 (turn_started (plain "run") "turn-001") buffered "disk full"

sample_fails :
    run_with_control_and_stop (sample_world 1) sample_request (new_runtime unused (0, 0))
    ≡ (err disk_full, sample_end 1)
unfolding sample_end run_with_control_and_stop
sample_fails = refl

run_closes_example :
    EndsWith (run_finished (plain "run") (TerminalRunStatus.completed "bye")) (sample_end 100)
    × Counts 1 (sample_end 100).written (sample_end 100).next_event_sequence
run_closes_example =
    run_closes (sample_world 100) sample_request unused (0, 0) sample_bye (sample_end 100)
      sample_completes

run_fails_example : Counts 1 (sample_end 1).written (sample_end 1).next_event_sequence
run_fails_example =
    run_fails (sample_world 1) sample_request unused (0, 0) disk_full (sample_end 1) sample_fails
