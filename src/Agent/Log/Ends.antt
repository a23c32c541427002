-- ===== src/Agent/Log/Ends.antt =====
-- What one model turn of crates/agent-runtime/src/runtime.rs leaves in the log.
use young_agent.Prelude.{
  String, Bool, true, false, List, [], ◌∷◌, Option, none, some, ◌⊎◌, inl, inr, split, contains,
  string_eq, if◌then◌else◌,
}
use young_agent.Model.Stream.{ModelToolCallId, ModelStreamEvent, ModelError}
use young_agent.Model.Message.{ModelRequest, ModelToolCall}
use young_agent.Agent.Event.{RunId, TurnId, TerminalRunStatus, model_output}
use young_agent.Agent.Action.{pure, ◌>>◌}
use young_agent.Agent.Runtime.{
  Collaborators, RunState, RunOutcome, Run, plain, read_stop, check_stop, emit, finish,
  finish_agent_error, finish_model_error,
}
use young_agent.Agent.Turn
use young_agent.Agent.Turn.{
  ModelTurnProgress, ToolCallProgress, end_turn, after_stream, take_event, collect_events,
  read_stream, collect_model_turn,
}
use young_agent.Agent.Log.Triples.{Meets, Stays, Meets-bind}
use young_agent.Agent.Log.Emits.{
  Numbered, Emitted, Closed, read_stop-Meets, check_stop-Meets, emit-Meets, finish-Meets,
  finish_agent_error-Meets, finish_model_error-Meets,
}

module _ {V W : Type 0} (id : RunId) where
  -- A turn that ended the run has closed its log.
  abbrev pub TurnClosed : ModelTurnProgress V → RunState V W → Type 0
  TurnClosed (ModelTurnProgress.collected text calls) s = Numbered s
  TurnClosed (ModelTurnProgress.finished outcome) s = Closed id outcome s

module _ {V X W : Type 0} (c : Collaborators V X W) (id : RunId) (turn : TurnId) where
  end_turn-Meets :
      (m : Run c RunOutcome)
      → Meets Numbered (Closed id) m
      → Meets Numbered (TurnClosed id) (end_turn c id turn m)
  end_turn-Meets m h =
      Meets-bind Numbered (Closed id) (TurnClosed id) m
        (λ outcome. pure (ModelTurnProgress.finished outcome)) h λ outcome s k. k

  abbrev stopped : Turn.Turn c id turn → Option TerminalRunStatus → Turn.Turn c id turn
  stopped go (some status) = end_turn c id turn (finish c id status)
  stopped go none = go

  stopped-Meets :
      (go : Turn.Turn c id turn) (stop : Option TerminalRunStatus)
      → Meets Numbered (TurnClosed id) go
      → Meets Numbered (TurnClosed id) (stopped go stop)
  stopped-Meets go (some status) h = end_turn-Meets (finish c id status) (finish-Meets c id status)
  stopped-Meets go none h = h

  ending : String → List (ModelToolCall V) → Bool → Turn.Turn c id turn
  ending text calls completed =
      if completed
      then pure (ModelTurnProgress.collected text calls)
      else end_turn c id turn (
          finish_agent_error c id (some turn)
            (Turn.fatal "model_stream_incomplete" "model stream ended without a completed event"))

  ending-Meets :
      (text : String) (calls : List (ModelToolCall V)) (completed : Bool)
      → Meets Numbered (TurnClosed id) (ending text calls completed)
  unfolding ending
  ending-Meets text calls true = λ s h. h
  ending-Meets text calls false = end_turn-Meets _ (finish_agent_error-Meets c id (some turn) _)

  after_stream-Meets :
      (text : String) (calls : List (ModelToolCall V)) (completed : Bool)
      → Meets Numbered (TurnClosed id) (after_stream c id turn text calls completed)
  unfolding after_stream ending
  after_stream-Meets text calls completed =
      Meets-bind Numbered (Stays Numbered) (TurnClosed id) (read_stop c)
        (stopped (ending text calls completed)) (read_stop-Meets c)
        λ stop. stopped-Meets (ending text calls completed) stop (ending-Meets text calls completed)

  take_event-Meets :
      (next : String → List (ModelToolCall V) → List ModelToolCallId → Turn.Turn c id turn)
      (text : String) (calls : List (ModelToolCall V)) (ids : List ModelToolCallId)
      (event : ModelStreamEvent V)
      → ((t : String) (cs : List (ModelToolCall V)) (is : List ModelToolCallId)
          → Meets Numbered (TurnClosed id) (next t cs is))
      → Meets Numbered (TurnClosed id) (take_event c id turn next text calls ids event)
  unfolding take_event
  take_event-Meets next text calls ids (ModelStreamEvent.text_delta delta x) h = h _ _ _
  take_event-Meets next text calls ids (ModelStreamEvent.tool_call i name arguments x) h =
      split (contains ids i)
        (λ q. rw q (end_turn-Meets _ (finish_agent_error-Meets c id (some turn) _)))
        λ q. rw q (h _ _ _)
  take_event-Meets next text calls ids (ModelStreamEvent.completed reason x) h =
      after_stream-Meets text calls true
  take_event-Meets next text calls ids (ModelStreamEvent.failed e x) h =
      end_turn-Meets _ (finish_model_error-Meets c id (some turn) e)
  take_event-Meets next text calls ids (ModelStreamEvent.started r x) h = h _ _ _
  take_event-Meets next text calls ids (ModelStreamEvent.tool_call_delta i n a x) h = h _ _ _
  take_event-Meets next text calls ids (ModelStreamEvent.usage u x) h = h _ _ _

  collect_events-Meets :
      (events : List (ModelStreamEvent V)) (text : String) (calls : List (ModelToolCall V))
      (ids : List ModelToolCallId)
      → Meets Numbered (TurnClosed id) (collect_events c id turn events text calls ids)
  unfolding collect_events
  collect_events-Meets [] text calls ids = after_stream-Meets text calls false
  collect_events-Meets (event ∷ rest) text calls ids =
      let more = take_event c id turn (collect_events c id turn rest) text calls ids event in
      Meets-bind Numbered (Stays Numbered) (TurnClosed id) (check_stop c)
        (stopped (emit c (model_output (plain id) turn event) >> more)) (check_stop-Meets c)
        λ stop. stopped-Meets _ stop (
          Meets-bind Numbered (Emitted (model_output (plain id) turn event)) (TurnClosed id)
            (emit c (model_output (plain id) turn event)) (λ _. more)
            (emit-Meets c (model_output (plain id) turn event))
            λ _ s h. take_event-Meets _ text calls ids event (collect_events-Meets rest) s h.0)

  read_stream-Meets :
      (stream : ModelError ⊎ List (ModelStreamEvent V))
      → Meets Numbered (TurnClosed id) (read_stream c id turn stream)
  unfolding read_stream
  read_stream-Meets (inr events) = collect_events-Meets events "" [] []
  read_stream-Meets (inl refusal) =
      let give_up = end_turn c id turn (finish_model_error c id (some turn) refusal) in
      Meets-bind Numbered (Stays Numbered) (TurnClosed id) (read_stop c) (stopped give_up)
        (read_stop-Meets c)
        λ stop.
          stopped-Meets give_up stop
            (end_turn-Meets _ (finish_model_error-Meets c id (some turn) refusal))

  pub collect_model_turn-Meets :
      (request : ModelRequest V)
      → Meets Numbered (TurnClosed id) (collect_model_turn c id turn request)
  unfolding collect_model_turn Numbered
  collect_model_turn-Meets request s h =
      let (stream, world) = c.stream s.world request in
      read_stream-Meets stream (record s { world = world }) h
