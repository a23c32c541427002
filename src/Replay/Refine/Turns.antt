-- ===== src/Replay/Refine/Turns.antt =====
-- Open calls, turns and the end of a run in crates/event-store/src/replay.rs: the fold and the
-- history step by step.
use young_agent.Prelude.{
  ℕ, ◌+◌, true, false, not, ◌≡◌, refl, List, [], ◌∷◌, Option, none, some, is_none, is_empty,
  get_elem?, ok, ◌==◌, nat_eq, string_eq, contains, Pairs, Both, both_ok, both_err, split, ◌>>◌,
}
use young_agent.Tool.Call.{ToolResult}
use young_agent.Agent.Event.{
  AgentEvent, TurnId, RunStatus, TerminalRunStatus, tool_result, turn_started, model_output,
  tool_call_requested, approval_requested, approval_resolved, error, run_started, run_finished,
}
use young_agent.Replay.Timeline.{ReplayedToolCallIndex, unresolved, result_at, at_index}
use young_agent.Replay.Step.{Fold, check_turn, start_turn, require_active, finish_run, is_closing}
use young_agent.Replay.Spec.{
  CallHistory, RunHistory, open_calls, note_turn, note_place, note_ending, in_latest,
}
use young_agent.Replay.Refine.Relation.{Sees, StandsFor}

module _ {V : Type 0} where
  result_at-IsSome :
      (o : Option (AgentEvent V)) {x : Option (ToolResult V)}
      → result_at o ≡ ok x
      → is_none x ≡ false
  result_at-IsSome (some (tool_result m t r)) h = cc
  result_at-IsSome _ h = cc

  module _ (events : List (AgentEvent V)) where
    -- A call is open in the fold exactly when its history has no result.
    is_none-result :
        (o : Option ℕ) (x : Option (ToolResult V))
        → at_index result_at events o ≡ ok x
        → is_none o ≡ is_none x
    is_none-result none x h = cc
    is_none-result (some i) x h = rw (result_at-IsSome (get_elem? events i) h)

    pub unresolved-eq :
        (xs : List ReplayedToolCallIndex) (cs : List (CallHistory V))
        → Pairs (Sees events) xs cs
        → unresolved events xs ≡ ok (open_calls cs)
    unfolding unresolved
    unresolved-eq [] [] h = refl
    unresolved-eq [] (c ∷ cs) h = absurd h
    unresolved-eq (x ∷ xs) [] h = absurd h
    unresolved-eq (x ∷ xs) (c ∷ cs) h =
        rw (unresolved-eq xs cs h.1, is_none-result x.result_event c.result h.0.result)
          (split (is_none c.result) (λ q. rw (q, h.0.requested)) (λ q. rw q))

-- A live run and the fold that stands for it.
abbrev pub Live : {V : Type 0} → List (AgentEvent V) → Fold → RunHistory V → Type 0
Live events s h = StandsFor events s h × (h.ending ≡ none)

module _ {V : Type 0} (events : List (AgentEvent V)) (index : ℕ) (s : Fold) (h : RunHistory V) where
  module _ (rel : StandsFor events s h) where
    ended :
        (x : TerminalRunStatus)
        → StandsFor events
            (record s { status = RunStatus.finished x; finished = true })
            (record h { ending = some x })
    ended x = record {
      calls = rel.calls;
      by_id = rel.by_id;
      by_approval = rel.by_approval;
      pending = rel.pending;
      status = refl;
      finished = refl;
      format = rel.format;
      turns = rel.turns;
      active = rel.active;
      requests = rel.requests;
      errors = rel.errors;
    }

    pub finish_run-refines :
        (x : TerminalRunStatus)
        → Both (StandsFor events) (finish_run events index s x) (note_ending (index + 1) h x)
    unfolding finish_run note_ending
    finish_run-refines x = rw (unresolved-eq events s.tool_calls h.calls rel.calls) (
        split (is_closing x)
          (λ q. rw q (
            split (is_empty (open_calls h.calls)) (λ q2. rw q2 (both_ok (ended x)))
              (λ q2. rw q2 (both_err _))))
          λ q. rw q (both_ok (ended x)))

    started :
        (t : TurnId)
        → StandsFor events
            (record s { started_turns = t ∷ h.turns; active_turn = some t })
            (record h { turns = t ∷ h.turns })
    started t = record {
      calls = rel.calls;
      by_id = rel.by_id;
      by_approval = rel.by_approval;
      pending = rel.pending;
      status = rel.status;
      finished = rel.finished;
      format = rel.format;
      turns = refl;
      active = refl;
      requests = rel.requests;
      errors = rel.errors;
    }

    module _ (live : h.ending ≡ none) where
      start_turn-refines :
          (t : TurnId)
          → Both (Live events) (start_turn events index s t) (note_turn (index + 1) h t)
      unfolding start_turn note_turn
      start_turn-refines t =
          rw (rel.turns, unresolved-eq events s.tool_calls h.calls rel.calls)
            (split (contains h.turns t) (λ q. rw q (both_err _))
              λ q. rw q (
                split (not (is_empty (open_calls h.calls))) (λ q2. rw q2 (both_err _))
                  λ q2. rw q2 (both_ok (started t, live))))

      require_active-refines :
          (t : TurnId) (turns : List TurnId)
          → h.turns ≡ turns
          → Both (Live events) (require_active index s t) (in_latest (index + 1) t h.turns >> ok h)
      unfolding require_active
      require_active-refines t [] q = simp (rel.turns, q) (both_err _)
      require_active-refines t (latest ∷ earlier) q =
          simp (rel.turns, rel.active, q)
            (split (contains (latest ∷ earlier) t)
              (λ q2. rw q2 (
                split (latest == t) (λ q3. rw q3 (both_ok (rel, live))) (λ q3. rw q3 (both_err _))))
              (λ q2. rw q2 (both_err _)))

      pub check_turn-refines :
          (event : AgentEvent V)
          → Both (Live events) (check_turn events index s event) (note_place (index + 1) h event)
      unfolding check_turn note_place
      check_turn-refines (turn_started m t) = start_turn-refines t
      check_turn-refines (model_output m t o) = require_active-refines t h.turns refl
      check_turn-refines (tool_call_requested m t i c) = require_active-refines t h.turns refl
      check_turn-refines (approval_requested m t r) = require_active-refines t h.turns refl
      check_turn-refines (approval_resolved m t i d) = require_active-refines t h.turns refl
      check_turn-refines (tool_result m t r) = require_active-refines t h.turns refl
      check_turn-refines (error m (some t) x) = require_active-refines t h.turns refl
      check_turn-refines (error m none x) = both_ok (rel, live)
      check_turn-refines (run_started m) = both_ok (rel, live)
      check_turn-refines (run_finished m x) = both_ok (rel, live)
