-- ===== src/Agent/Log/Emits.antt =====
-- The emission of events in crates/agent-runtime/src/runtime.rs: their numbers and the last of them.
use young_agent.Prelude.{
  ℕ, suc, ◌+◌, ◌≡◌, refl, sym, ap, ◌∙◌, List, [], ◌∷◌, ◌++◌, Option, none, some, split, ltb, arith,
}
use young_agent.Tool.Prepared.{u64_max}
use young_agent.Agent.Event.{
  RunId, EventSequence, AgentEvent, AgentError, TurnId, TerminalRunStatus, error, run_finished,
}
use young_agent.Model.Stream.{ModelError}
use young_agent.Agent.Action.{pure, run_on}
use young_agent.Agent.Runtime.{
  Collaborators, RunState, RunOutcome, EventDurability, buffered, durable, plain, interlude,
  read_stop, check_stop, advance_event_sequence, acknowledged, emit_at, emit, emit_durable, settle,
  finish, finish_agent_error, finish_model_error,
}
use young_agent.Agent.Log.Triples.{Holds, Meets, Stays, Meets-bind}

module _ {V : Type 0} where
  -- The events are numbered from `n` on without a gap, and `m` is the next number.
  unfoldable pub Counts : ℕ → List (EventSequence × AgentEvent V) → ℕ → Type 0
  Counts n [] m = n ≡ m
  Counts n ((k, event) ∷ rest) m = (k ≡ n) × Counts (suc n) rest m

  Counts-append :
      (n : ℕ) (log : List (EventSequence × AgentEvent V)) (m : ℕ) (event : AgentEvent V)
      → Counts n log m
      → Counts n (log ++ (m, event) ∷ []) (m + 1)
  unfolding Counts
  Counts-append n [] m event h = (sym h, ap suc h ∙ omega arith)
  Counts-append n ((k, x) ∷ rest) m event h = (h.0, Counts-append (suc n) rest m event h.1)

module _ {V W : Type 0} where
  unfoldable pub Numbered : RunState V W → Type 0
  Numbered s = Counts 1 s.written s.next_event_sequence

  -- The last event that the sink has acknowledged.
  abbrev pub EndsWith : AgentEvent V → RunState V W → Type 0
  EndsWith event s =
      (front : List (EventSequence × AgentEvent V)) × (n : EventSequence) × (s.written
        ≡ front ++ (n, event) ∷ [])

  abbrev pub Emitted : AgentEvent V → Unit {0} → RunState V W → Type 0
  Emitted event u s = Numbered s × EndsWith event s

  -- The last event closes the run with the outcome.
  abbrev pub Closed : RunId → RunOutcome → RunState V W → Type 0
  Closed id outcome s = Numbered s × EndsWith (run_finished (plain id) outcome.status) s

module _ {V X W : Type 0} (c : Collaborators V X W) where
  pub interlude-Meets : Meets Numbered (Stays Numbered) (interlude c)
  unfolding interlude Numbered
  interlude-Meets s h = h

  pub read_stop-Meets : Meets Numbered (Stays Numbered) (read_stop c)
  unfolding read_stop interlude Numbered
  read_stop-Meets s h = h

  pub check_stop-Meets : Meets Numbered (Stays Numbered) (check_stop c)
  unfolding check_stop interlude Numbered
  check_stop-Meets s h = h

  settle-Meets : (x : TerminalRunStatus) → Meets Numbered (Stays Numbered) (settle c x)
  unfolding settle interlude Numbered
  settle-Meets x s h = h

  acknowledged-Meets :
      (durability : EventDurability) (event : AgentEvent V) (failure : Option X) (s : RunState V W)
      → Numbered s
      → Holds Numbered (Emitted event) (
          run_on
            (acknowledged c durability event s.next_event_sequence failure s)
            λ _. advance_event_sequence c)
  unfolding advance_event_sequence Numbered
  acknowledged-Meets durability event (some source) s h = h
  acknowledged-Meets durability event none s h =
      split (ltb s.next_event_sequence u64_max)
        (λ q. simp (q) (
          Counts-append 1 s.written s.next_event_sequence event h,
          (s.written, s.next_event_sequence, refl),
        ))
        λ q. simp (q) tt

  pub emit_at-Meets :
      (durability : EventDurability) (event : AgentEvent V)
      → Meets Numbered (Emitted event) (emit_at c durability event)
  unfolding emit_at Numbered
  emit_at-Meets durability event s h =
      let (failure, world) = c.append durability s.world s.next_event_sequence event in
      acknowledged-Meets durability event failure (record s { world = world }) h

  pub emit-Meets : (event : AgentEvent V) → Meets Numbered (Emitted event) (emit c event)
  unfolding emit
  emit-Meets event = emit_at-Meets buffered event

  pub emit_durable-Meets :
      (event : AgentEvent V) → Meets Numbered (Emitted event) (emit_durable c event)
  unfolding emit_durable
  emit_durable-Meets event = emit_at-Meets durable event

  pub finish-Meets :
      (id : RunId) (x : TerminalRunStatus) → Meets Numbered (Closed id) (finish c id x)
  unfolding finish
  finish-Meets id x =
      Meets-bind Numbered (Stays Numbered) (Closed id) (settle c x) _ (settle-Meets x) λ settled.
        Meets-bind Numbered (Emitted (run_finished (plain id) settled)) (Closed id)
          (emit_durable c (run_finished (plain id) settled))
          (λ _. pure (record { status = settled }))
          (emit_durable-Meets (run_finished (plain id) settled)) λ _ s h. h

  pub finish_agent_error-Meets :
      (id : RunId) (turn : Option TurnId) (x : AgentError)
      → Meets Numbered (Closed id) (finish_agent_error c id turn x)
  unfolding finish_agent_error
  finish_agent_error-Meets id turn x =
      Meets-bind Numbered (Emitted (error (plain id) turn x)) (Closed id)
        (emit c (error (plain id) turn x)) _ (emit-Meets (error (plain id) turn x))
        λ _ s h. finish-Meets id (TerminalRunStatus.failed x) s h.0

  pub finish_model_error-Meets :
      (id : RunId) (turn : Option TurnId) (x : ModelError)
      → Meets Numbered (Closed id) (finish_model_error c id turn x)
  unfolding finish_model_error
  finish_model_error-Meets id turn x = finish_agent_error-Meets id turn _
