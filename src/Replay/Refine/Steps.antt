-- ===== src/Replay/Refine/Steps.antt =====
-- One event, and a whole log, of crates/event-store/src/replay.rs: the fold and the history.
use young_agent.Prelude.{
  ℕ, suc, ◌+◌, not, ◌≡◌, List, [], ◌∷◌, some, is_some, get_elem?, drop, get_elem?-of_drop, drop-suc,
  Eq, ◌==◌, string_eq, Pairs-append, Both, both_ok, both_err, Both-bind, split, arith,
  none-of_is_some,
}
use young_agent.Agent.Event.{
  AgentEvent, RunId, turn_started, model_output, tool_call_requested, approval_requested,
  approval_resolved, tool_result, error, run_started, run_finished, run_id,
}
use young_agent.Replay.Step.{Fold, ReplayCompatibility, apply_event, step}
use young_agent.Replay.Run.{fold_events}
use young_agent.Replay.Spec.{RunHistory, note, advance, history}
use young_agent.Replay.Refine.Relation.{SeesError, StandsFor}
use young_agent.Replay.Refine.Turns.{Live, check_turn-refines, finish_run-refines}
use young_agent.Replay.Refine.Calls.{request_tool_call-refines, request_approval-refines}
use young_agent.Replay.Refine.Decisions.{resolve_approval-refines, record_result-refines}

module _ {V : Type 0} ⦃e : Eq V⦄ (compat : ReplayCompatibility) (events : List (AgentEvent V)) where
  apply_event-refines :
      (index : ℕ) (s : Fold) (h : RunHistory V) (event : AgentEvent V)
      → Live events s h
      → get_elem? events index ≡ some event
      → Both
          (StandsFor events)
          (apply_event compat events index s event)
          (note compat (index + 1) h event)
  unfolding apply_event note
  apply_event-refines index s h (run_started m) l here = both_err _
  apply_event-refines index s h (turn_started m t) l here = both_ok l.0
  apply_event-refines index s h (model_output m t o) l here = both_ok l.0
  apply_event-refines index s h (tool_call_requested m t i c) l here =
      request_tool_call-refines events index s h t m i c l.0 here
  apply_event-refines index s h (approval_requested m t r) l here =
      request_approval-refines events index s h t m r l.0 here l.1
  apply_event-refines index s h (approval_resolved m t id d) l here =
      resolve_approval-refines events index s h l.0 l.1 compat t m id d here
  apply_event-refines index s h (tool_result m t r) l here =
      record_result-refines events index s h l.0 l.1 compat t m r here
  apply_event-refines index s h (run_finished m x) l here =
      finish_run-refines events index s h l.0 x
  apply_event-refines index s h (error m t x) l here =
      let rel = l.0 in
      both_ok (record {
        calls = rel.calls;
        by_id = rel.by_id;
        by_approval = rel.by_approval;
        pending = rel.pending;
        status = rel.status;
        finished = rel.finished;
        format = rel.format;
        turns = rel.turns;
        active = rel.active;
        requests = rel.requests;
        errors = Pairs-append (SeesError events) s.errors h.errors index x rel.errors (rw here);
      })

  step-refines :
      (expected : RunId) (index : ℕ) (s : Fold) (h : RunHistory V) (event : AgentEvent V)
      → StandsFor events s h
      → get_elem? events index ≡ some event
      → Both
          (StandsFor events)
          (step compat events expected index s event)
          (advance compat expected (index + 1) h event)
  unfolding step advance
  step-refines expected index s h event rel here = simp rel.finished (
      split (is_some h.ending) (λ q. rw q (both_err _))
        λ q. rw q (
          split (not (run_id event == expected)) (λ q2. rw q2 (both_err _))
            λ q2. rw q2 (
              Both-bind (λ s'. apply_event compat events index s' event)
                (λ h'. note compat (index + 1) h' event)
                (check_turn-refines events index s h rel (none-of_is_some h.ending q) event)
                (λ s' h' l. apply_event-refines index s' h' event l here))))

  pub fold_events-refines :
      (expected : RunId) (index : ℕ) (rest : List (AgentEvent V)) (s : Fold) (h : RunHistory V)
      → StandsFor events s h
      → drop index events ≡ rest
      → Both
          (StandsFor events)
          (fold_events compat events expected index rest s)
          (history compat expected (index + 1) rest h)
  unfolding fold_events history
  fold_events-refines expected index [] s h rel tail = both_ok rel
  fold_events-refines expected index (event ∷ rest) s h rel tail =
      Both-bind (λ s'. fold_events compat events expected (suc index) rest s')
        (λ h'. history compat expected (suc (index + 1)) rest h')
        (step-refines expected index s h event rel (get_elem?-of_drop events index tail))
        (λ s' h' rel'.
          let n : suc (index + 1) ≡ suc index + 1 = omega arith in
          rw n
            (fold_events-refines expected (suc index) rest s' h' rel' (drop-suc events index tail)))
