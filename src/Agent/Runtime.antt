-- ===== src/Agent/Runtime.antt =====
-- crates/agent-runtime/src/runtime.rs: the state of a run, its collaborators, and how events are
-- emitted and a run is finished. A method that takes `&mut self` is an `Action`.
use young_agent.Prelude.{
  ℕ, ◌+◌, false, Option, none, some, List, [], ◌∷◌, ◌++◌, ok, err, panic, ◌⊎◌, ltb, if◌then◌else◌,
}
use young_agent.Tool.Call.{ToolCall, ToolOutput}
use young_agent.Tool.Prepared.{PreparedToolCall, ToolExecutionAuthorization, u64_max}
use young_agent.Model.Stream.{ModelError, ModelStreamEvent}
use young_agent.Model.Message.{ModelRequest}
use young_agent.Agent.Event.{
  RunId, TurnId, EventSequence, AgentEvent, AgentError, Envelope, ApprovalRequest, ApprovalDecision,
  TerminalRunStatus, error, run_finished,
}
use young_agent.Agent.Stop.{
  RunStopToken, RunControlFlow, resolve_terminal, request_stop, status, stopped_status,
}
use young_agent.Agent.Action.{Action, pure, run_on, ◌>>=◌, ◌>>◌}

pub data EventDurability : Type 0 where
  buffered : EventDurability
  durable : EventDurability

-- `X` is the error type of the sink.
pub data AgentRuntimeError (V X : Type 0) : Type 0 where
  runtime_already_used : RunId → AgentRuntimeError V X
  stop_token_already_bound : RunId → AgentRuntimeError V X
  event_persistence_indeterminate :
      EventSequence → AgentEvent V → EventDurability → X → AgentRuntimeError V X

-- The code outside the run, over a world `W`: the model client, the tool dispatcher, the event sink and
-- the run control. A stream is the list of the events that it yields. `meanwhile` has the stop
-- requests that other threads make before the run looks at its token again.
pub record Collaborators (V X W : Type 0) : Type 0 where
  pub stream : W → ModelRequest V → (ModelError ⊎ List (ModelStreamEvent V)) × W
  pub prepare : W → ToolCall V → PreparedToolCall V
  pub execute_prepared : W → PreparedToolCall V → ToolExecutionAuthorization → ToolOutput V × W
  pub append : EventDurability → W → EventSequence → AgentEvent V → Option X × W
  pub checkpoint : W → RunControlFlow × W
  pub decide_approval : W → ApprovalRequest V → ApprovalDecision × W
  pub meanwhile : W → List TerminalRunStatus × W
  pub to_value : ToolOutput V → V

-- The fields of `AgentRuntime` with the token, the local `RunSequences` and the appends that the sink
-- has acknowledged, in order.
pub record RunState (V W : Type 0) : Type 0 where
  pub next_event_sequence : ℕ
  pub started_run_id : Option RunId
  pub token : RunStopToken
  pub tool_call_sequence : ℕ
  pub approval_sequence : ℕ
  pub written : List (EventSequence × AgentEvent V)
  pub world : W

-- `AgentRuntime::new`, with the token that the caller passes to the run.
abbrev pub new_runtime : {V W : Type 0} → RunStopToken → W → RunState V W
new_runtime token world = record {
  next_event_sequence = 1;
  started_run_id = none;
  token = token;
  tool_call_sequence = 0;
  approval_sequence = 0;
  written = [];
  world = world;
}

pub record RunOutcome : Type 0 where
  pub status : TerminalRunStatus

abbrev pub plain : {V : Type 0} → RunId → Envelope V
plain id = record { run_id = id; event_sequence = none; extensions = [] }

abbrev pub request_all : List TerminalRunStatus → RunStopToken → RunStopToken
request_all [] token = token
request_all (x ∷ rest) token = request_all rest (request_stop x token)

module _ {V X W : Type 0} (c : Collaborators V X W) where
  abbrev pub Run : Type 0 → Type 0
  Run A = Action (RunState V W) (AgentRuntimeError V X) A

  -- What the other holders of the token did.
  unfoldable pub interlude : Run (Unit {0})
  unfolding request_stop
  interlude s =
      let (requests, world) = c.meanwhile s.world in
      (ok tt, record s { token = request_all requests s.token; world = world })

  -- `stop.status()`
  unfoldable pub read_stop : Run (Option TerminalRunStatus)
  unfolding interlude status
  read_stop = do interlude; λ s. (ok (status s.token), s)

  -- `stopped_status(control.checkpoint(), stop)`
  unfoldable pub check_stop : Run (Option TerminalRunStatus)
  unfolding interlude stopped_status
  check_stop s =
      let (flow, world) = c.checkpoint s.world in
      run_on (interlude (record s { world = world })) λ _ s'.
        let (answer, token) = stopped_status flow s'.token in
        (ok answer, record s' { token = token })

  unfoldable pub advance_event_sequence : Run (Unit {0})
  advance_event_sequence s =
      if ltb s.next_event_sequence u64_max
      then (ok tt, record s { next_event_sequence = s.next_event_sequence + 1 })
      else (panic, s)

  abbrev pub acknowledged :
      EventDurability → AgentEvent V → EventSequence → Option X → Run (Unit {0})
  acknowledged durability event sequence none s =
      (ok tt, record s { written = s.written ++ (sequence, event) ∷ [] })
  acknowledged durability event sequence (some source) s =
      (err (event_persistence_indeterminate sequence event durability source), s)

  -- `emit` and `emit_durable`
  unfoldable pub emit_at : EventDurability → AgentEvent V → Run (Unit {0})
  unfolding advance_event_sequence
  emit_at durability event s =
      let (failure, world) = c.append durability s.world s.next_event_sequence event in
      run_on
        (acknowledged durability event s.next_event_sequence failure (record s { world = world }))
        λ _. advance_event_sequence

  unfoldable pub emit : AgentEvent V → Run (Unit {0})
  unfolding emit_at
  emit event = emit_at buffered event

  unfoldable pub emit_durable : AgentEvent V → Run (Unit {0})
  unfolding emit_at
  emit_durable event = emit_at durable event

  -- `stop.resolve_terminal`
  unfoldable pub settle : TerminalRunStatus → Run TerminalRunStatus
  unfolding interlude resolve_terminal
  settle proposed = do
    interlude
    λ s.
        let (settled, token) = resolve_terminal proposed s.token in
        (ok settled, record s { token = token })

  unfoldable pub finish : RunId → TerminalRunStatus → Run RunOutcome
  unfolding settle emit_durable
  finish id proposed = do
    settled ← settle proposed
    emit_durable (run_finished (plain id) settled)
    pure (record { status = settled })

  unfoldable pub finish_agent_error : RunId → Option TurnId → AgentError → Run RunOutcome
  unfolding emit finish
  finish_agent_error id turn failure = do
    emit (error (plain id) turn failure)
    finish id (TerminalRunStatus.failed failure)

  unfoldable pub finish_model_error : RunId → Option TurnId → ModelError → Run RunOutcome
  unfolding finish_agent_error
  finish_model_error id turn failure =
      finish_agent_error id turn
        (record { code = failure.code; message = failure.message; recoverable = false })
