-- ===== src/Agent/Log/Whole.antt =====
-- A whole run of crates/agent-runtime/src/runtime.rs: what its log looks like when it returns.
use young_agent.Prelude.{
  ℕ, zero, suc, ◌+◌, ◌≡◌, refl, subst, Option, none, some, List, [], ◌∷◌, Outcome, ok, err, panic,
  is_empty, if◌then◌else◌,
}
use young_agent.Prelude.Text.{push_str}
use young_agent.Prelude.Decimal.{decimal_03}
use young_agent.Model.Message.{ModelRequest, ModelToolCall}
use young_agent.Agent.Event.{
  RunId, TurnId, TerminalRunStatus, run_started, turn_started, run_finished,
}
use young_agent.Agent.Stop.{RunStopToken, bind}
use young_agent.Agent.Action.{pure, ◌>>=◌, ◌>>◌}
use young_agent.Agent.Runtime.{
  Collaborators, RunState, RunOutcome, Run, AgentRuntimeError, plain, new_runtime, check_stop, emit,
  finish,
}
use young_agent.Agent.Turn.{ModelTurnProgress, ToolCallProgress, collect_model_turn}
use young_agent.Agent.Loop.{
  RunRequest, with_message, assistant_message, max_turns, drive_tool_call, drive_tool_calls,
  run_turns, bind_token, bound_by, model_request, run_with_control_and_stop,
}
use young_agent.Agent.Log.Triples.{Holds, Meets, Stays, Meets-bind}
use young_agent.Agent.Log.Emits.{
  Counts, Numbered, Emitted, EndsWith, Closed, check_stop-Meets, emit-Meets, finish-Meets,
  finish_agent_error-Meets,
}
use young_agent.Agent.Log.Ends.{TurnClosed, collect_model_turn-Meets}
use young_agent.Agent.Log.Calls.{CallClosed, drive_tool_call-Meets}

module _ {V X W : Type 0} (c : Collaborators V X W) (id : RunId) where
  abbrev Ends : Run c RunOutcome → Type 0
  Ends m = Meets Numbered (Closed id) m

  after_call :
      TurnId
      → (ModelRequest V → Run c RunOutcome)
      → ModelRequest V
      → List (ModelToolCall V)
      → ToolCallProgress V
      → Run c RunOutcome
  after_call turn next request rest (ToolCallProgress.message m) =
      drive_tool_calls c id turn next (with_message request m) rest
  after_call turn next request rest (ToolCallProgress.finished outcome) = pure outcome

  after_call-Ends :
      (turn : TurnId) (next : ModelRequest V → Run c RunOutcome) (request : ModelRequest V)
      (rest : List (ModelToolCall V))
      → ((r : ModelRequest V) → Ends (drive_tool_calls c id turn next r rest))
      → (progress : ToolCallProgress V) (s : RunState V W) → CallClosed id progress s
      → Holds Numbered (Closed id) (after_call turn next request rest progress s)
  unfolding after_call
  after_call-Ends turn next request rest h (ToolCallProgress.message m) = h (with_message request m)
  after_call-Ends turn next request rest h (ToolCallProgress.finished outcome) = λ s k. k

  drive_tool_calls-Ends :
      (turn : TurnId) (next : ModelRequest V → Run c RunOutcome) (request : ModelRequest V)
      (calls : List (ModelToolCall V))
      → ((r : ModelRequest V) → Ends (next r))
      → Ends (drive_tool_calls c id turn next request calls)
  unfolding drive_tool_calls after_call
  drive_tool_calls-Ends turn next request [] h = h request
  drive_tool_calls-Ends turn next request (call ∷ rest) h =
      Meets-bind Numbered (CallClosed id) (Closed id) (drive_tool_call c id turn call)
        (after_call turn next request rest) (drive_tool_call-Meets c id turn call)
        (after_call-Ends turn next request rest λ r. drive_tool_calls-Ends turn next r rest h)

  stopped : Run c RunOutcome → Option TerminalRunStatus → Run c RunOutcome
  stopped go (some status) = finish c id status
  stopped go none = go

  stopped-Ends :
      (go : Run c RunOutcome) (stop : Option TerminalRunStatus) → Ends go → Ends (stopped go stop)
  unfolding stopped
  stopped-Ends go (some status) h = finish-Meets c id status
  stopped-Ends go none h = h

  after_turn :
      TurnId
      → (ModelRequest V → Run c RunOutcome)
      → ModelRequest V
      → ModelTurnProgress V
      → Run c RunOutcome
  after_turn turn next request (ModelTurnProgress.finished outcome) = pure outcome
  after_turn turn next request (ModelTurnProgress.collected text calls) =
      if is_empty calls
      then finish c id (TerminalRunStatus.completed text)
      else drive_tool_calls c id turn next
          (with_message request (assistant_message c id text calls)) calls

  after_turn-Ends :
      (turn : TurnId) (next : ModelRequest V → Run c RunOutcome) (request : ModelRequest V)
      → ((r : ModelRequest V) → Ends (next r))
      → (progress : ModelTurnProgress V) (s : RunState V W) → TurnClosed id progress s
      → Holds Numbered (Closed id) (after_turn turn next request progress s)
  unfolding after_turn
  after_turn-Ends turn next request h (ModelTurnProgress.finished outcome) = λ s k. k
  after_turn-Ends turn next request h (ModelTurnProgress.collected text []) =
      finish-Meets c id (TerminalRunStatus.completed text)
  after_turn-Ends turn next request h (ModelTurnProgress.collected text (call ∷ rest)) =
      drive_tool_calls-Ends turn next _ (call ∷ rest) h

  run_turns-Ends : (left n : ℕ) (request : ModelRequest V) → Ends (run_turns c id left n request)
  unfolding run_turns stopped after_turn
  run_turns-Ends zero n request = finish_agent_error-Meets c id none _
  run_turns-Ends (suc left) n request =
      let turn = push_str "turn-" (decimal_03 n) in
      let next = run_turns c id left (n + 1) in
      let collect = collect_model_turn c id turn request >>= after_turn turn next request in
      let go = emit c (turn_started (plain id) turn) >> collect in
      Meets-bind Numbered (Stays Numbered) (Closed id) (check_stop c) (stopped go)
        (check_stop-Meets c)
        λ stop. stopped-Ends go stop (
          Meets-bind Numbered (Emitted (turn_started (plain id) turn)) (Closed id)
            (emit c (turn_started (plain id) turn)) (λ _. collect) (emit-Meets c _)
            λ _ s h.
              Meets-bind Numbered (TurnClosed id) (Closed id) (collect_model_turn c id turn request)
                (after_turn turn next request) (collect_model_turn-Meets c id turn request)
                (after_turn-Ends turn next request (run_turns-Ends left (n + 1))) s h.0)

module _ {V X W : Type 0} (c : Collaborators V X W) where
  bind_token-Meets : (id : RunId) → Meets Numbered (Stays Numbered) (bind_token c id)
  unfolding bind_token Numbered
  bind_token-Meets id s h = by_answer (bind id s.token)
    where
      by_answer :
          (answer : Outcome RunId RunStopToken)
          → Holds Numbered (Stays Numbered) (bound_by c id s answer)
      by_answer (ok token) = h
      by_answer (err other) = h
      by_answer panic = tt

  run-Holds :
      (request : RunRequest V) (token : RunStopToken) (world : W)
      → Holds Numbered
          (Closed request.id)
          (run_with_control_and_stop c request (new_runtime token world))
  unfolding run_with_control_and_stop Numbered Counts
  run-Holds request token world =
      let loop = run_turns c request.id max_turns 1 (model_request request) in
      let go = emit c (run_started (plain request.id)) >> loop in
      Meets-bind Numbered (Stays Numbered) (Closed request.id) (bind_token c request.id) (λ _. go)
        (bind_token-Meets request.id)
        (λ _ s h.
          Meets-bind Numbered (Emitted (run_started (plain request.id))) (Closed request.id)
            (emit c (run_started (plain request.id))) (λ _. loop) (emit-Meets c _)
            (λ _ s' k. run_turns-Ends c request.id max_turns 1 (model_request request) s' k.0) s h)
        (new_runtime token world) refl

  -- If a run on a new runtime returns an outcome, the last event that the sink has acknowledged is the
  -- `RunFinished` of this run with the status of that outcome, and the acknowledged events carry the
  -- numbers 1, 2, 3 and so on without a gap, whatever the model, the tools, the control and the
  -- threads that hold the stop token did.
  pub run_closes :
      (request : RunRequest V) (token : RunStopToken) (world : W) (outcome : RunOutcome)
      (s : RunState V W)
      → run_with_control_and_stop c request (new_runtime token world) ≡ (ok outcome, s)
      → EndsWith (run_finished (plain request.id) outcome.status) s
        × Counts 1 s.written s.next_event_sequence
  unfolding Numbered
  run_closes request token world outcome s h =
      let (numbers, ends) =
        subst (Holds Numbered (Closed request.id)) h (run-Holds request token world) in
      (ends, numbers)

  -- If a run on a new runtime fails, the events that the sink has acknowledged until then carry the
  -- numbers 1, 2, 3 and so on without a gap.
  pub run_fails :
      (request : RunRequest V) (token : RunStopToken) (world : W) (failure : AgentRuntimeError V X)
      (s : RunState V W)
      → run_with_control_and_stop c request (new_runtime token world) ≡ (err failure, s)
      → Counts 1 s.written s.next_event_sequence
  unfolding Numbered
  run_fails request token world failure s h =
      subst (Holds Numbered (Closed request.id)) h (run-Holds request token world)
