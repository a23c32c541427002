-- ===== src/Tests/StopWitnesses.antt =====
-- The theorems on the stop token of crates/agent-runtime/src/runtime.rs: a run is bound, interrupted
-- by one thread and cancelled by another, and then completes.
use young_agent.Prelude.{true, ◌≡◌, ◌↔◌, refl, some, ok}
use young_agent.Agent.Event.{TerminalRunStatus}
use young_agent.Agent.Stop.{RunStopToken, unused, is_stop, bind, resolve_terminal, status}
use young_agent.Agent.Stop.Latch.{done, and_then, bound, resolved, first_terminal_wins, status_iff}

abbrev sample_bound : RunStopToken
sample_bound = record unused { bound_run_id = some "run" }

sample_binds : bind "run" unused ≡ ok sample_bound
unfolding bind
sample_binds = refl

abbrev sample_interrupt : TerminalRunStatus
sample_interrupt = TerminalRunStatus.interrupted "ctrl-c"

abbrev sample_cancel : TerminalRunStatus
sample_cancel = TerminalRunStatus.cancelled "closed"

first_terminal_wins_example :
    (resolve_terminal
      (TerminalRunStatus.completed "bye")
      (resolve_terminal sample_cancel (resolve_terminal sample_interrupt sample_bound).1).1).0
    ≡ (resolve_terminal sample_interrupt sample_bound).0
first_terminal_wins_example =
    first_terminal_wins sample_interrupt (TerminalRunStatus.completed "bye") sample_bound
      (resolve_terminal sample_cancel (resolve_terminal sample_interrupt sample_bound).1).1
      (and_then done (resolved sample_cancel))

status_iff_example :
    (status (resolve_terminal sample_interrupt sample_bound).1 ≡ some sample_interrupt) ↔ (
      ((resolve_terminal sample_interrupt sample_bound).1.terminal_status ≡ some sample_interrupt)
      × (is_stop sample_interrupt ≡ true))
status_iff_example =
    status_iff (resolve_terminal sample_interrupt sample_bound).1 sample_interrupt
      (and_then (and_then done (bound "run" sample_binds)) (resolved sample_interrupt))
