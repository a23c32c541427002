-- ===== src/Agent/Stop.antt =====
-- crates/agent-runtime/src/runtime.rs: the stop token of one run. Its methods lock the state, so each
-- is one step on it; the flag `cancellation` changes only under the lock. A poisoned lock is taken as
-- it is, so it has no case of its own.
use young_agent.Prelude.{
  String, Bool, true, false, Option, none, some, Outcome, ok, err, if◌then◌else◌,
}
use young_agent.Agent.Event.{RunId, TerminalRunStatus}
pub mod Latch

pub record RunStopToken : Type 0 where
  pub cancellation : Bool
  pub bound_run_id : Option RunId
  pub terminal_status : Option TerminalRunStatus

-- `RunStopToken::default`
abbrev pub unused : RunStopToken
unused = record { cancellation = false; bound_run_id = none; terminal_status = none }

-- The statuses that stop a run from outside.
abbrev pub is_stop : TerminalRunStatus → Bool
is_stop (TerminalRunStatus.interrupted reason) = true
is_stop (TerminalRunStatus.cancelled reason) = true
is_stop (TerminalRunStatus.completed message) = false
is_stop (TerminalRunStatus.failed error) = false

unfoldable pub bind : RunId → RunStopToken → Outcome RunId RunStopToken
bind id token = elim token.bound_run_id [
  | some bound ↦ err bound
  | none ↦ ok (record token { bound_run_id = some id })
]

-- The status that the token settles on, and the token after it.
unfoldable pub resolve_terminal :
    TerminalRunStatus → RunStopToken → TerminalRunStatus × RunStopToken
resolve_terminal proposed token = elim token.terminal_status [
  | some settled ↦ (settled, token)
  | none ↦ (
    proposed,
    record token {
      terminal_status = some proposed;
      cancellation = if is_stop proposed then true else token.cancellation;
    },
  )
]

unfoldable pub request_stop : TerminalRunStatus → RunStopToken → RunStopToken
unfolding resolve_terminal
request_stop status token = (resolve_terminal status token).1

abbrev pub is_requested : RunStopToken → Bool
is_requested token = token.cancellation

unfoldable pub status : RunStopToken → Option TerminalRunStatus
status token = if is_requested token then token.terminal_status else none

-- `RunControlFlow`
pub data RunControlFlow : Type 0 where
  continue : RunControlFlow
  interrupt : String → RunControlFlow
  cancel : String → RunControlFlow

-- The token after the answer of a checkpoint.
unfoldable pub heed : RunControlFlow → RunStopToken → RunStopToken
unfolding request_stop
heed continue token = token
heed (interrupt reason) token = request_stop (TerminalRunStatus.interrupted reason) token
heed (cancel reason) token = request_stop (TerminalRunStatus.cancelled reason) token

unfoldable pub stopped_status :
    RunControlFlow → RunStopToken → Option TerminalRunStatus × RunStopToken
unfolding heed status
stopped_status control token = (status (heed control token), heed control token)
