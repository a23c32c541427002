-- ===== src/Replay/Refine/Whole.antt =====
-- A whole replay of crates/event-store/src/replay.rs against Replay/Spec.
use young_agent.Prelude.{
  Bool, true, false, ◌≡◌, refl, List, [], ◌∷◌, Option, none, some, any, get_elem?, drop, ok, ◌>>=◌,
  Eq, Both, both_ok, both_err, Both-bind, Option-cases, inl, inr, Pairs-map_imp, collect,
  collect-eq, split,
}
use young_agent.Tool.Call.{ToolCallId}
use young_agent.Agent.Event.{AgentEvent, RunId, RunStatus, TerminalRunStatus, run_started}
use young_agent.Replay.Timeline.{Replayed, ReplayedToolCallIndex, error_at, approval_request_at}
use young_agent.Replay.Step.{
  Fold, initial, ReplayCompatibility, strict, legacy_approval_without_resolution,
}
use young_agent.Replay.Run.{
  RunReplay, started_run, check_compatibility, first_sequenced, skip_first, recover, recovered,
  replay_events_with_mode,
}
use young_agent.Replay.Spec.{
  CallHistory, RunHistory, RunView, blank, open_calls, with_open, recovered_status, status_of,
  summary, is_pending,
}
use young_agent.Replay.View.{view, read_call}
use young_agent.Replay.Refine.Relation.{Sees, StandsFor, shown}
use young_agent.Replay.Refine.Turns.{unresolved-eq}
use young_agent.Replay.Refine.Pending.{is_empty-pending}
use young_agent.Replay.Refine.Steps.{fold_events-refines}

recover-eq : (x : RunStatus) (ids : List ToolCallId) → recover x (ok ids) ≡ ok (with_open x ids)
recover-eq RunStatus.running ids = refl
recover-eq _ ids = refl

module _ {V : Type 0} (events : List (AgentEvent V)) where
  initial-StandsFor : StandsFor events initial blank
  initial-StandsFor = record {
    calls = tt;
    by_id = λ id. refl;
    by_approval = λ id. refl;
    pending = λ i. refl;
    status = refl;
    finished = refl;
    format = refl;
    turns = refl;
    active = refl;
    requests = tt;
    errors = tt;
  }

  read_call-eq :
      (x : ReplayedToolCallIndex) (c : CallHistory V) → Sees events x c → read_call events x ≡ ok c
  unfolding read_call
  read_call-eq x c sees = rw sees.requested (rw (sees.approval, sees.decision, sees.result))

  module _ (s : Fold) (h : RunHistory V) (rel : StandsFor events s h) where
    status-eq : s.status ≡ status_of h
    status-eq = rw (rel.status) (by_ending h.ending)
      where
        by_ending :
            (o : Option TerminalRunStatus)
            → shown o s.pending_approvals ≡ status_of (record h { ending = o })
        by_ending (some x) = refl
        by_ending none =
            rw (is_empty-pending s.pending_approvals h.calls rel.pending)
              (split (any is_pending h.calls) (λ q. rw q) (λ q. rw q))

    recovered-eq : (d : Bool) → recovered d events s ≡ ok (recovered_status d h)
    unfolding recovered
    recovered-eq false = rw status-eq
    recovered-eq true =
        rw (unresolved-eq events s.tool_calls h.calls rel.calls, status-eq)
          (recover-eq (status_of h) (open_calls h.calls))

    calls-eq : collect (read_call events) s.tool_calls ≡ ok h.calls
    calls-eq = collect-eq (read_call events) s.tool_calls h.calls (
        Pairs-map_imp (Sees events) (λ x y. read_call events x ≡ ok y) s.tool_calls h.calls
          (λ x y. read_call-eq x y) rel.calls)

    requests-eq :
        collect (λ i. approval_request_at (get_elem? events i)) s.approvals ≡ ok h.requests
    requests-eq = collect-eq _ s.approvals h.requests rel.requests

    errors-eq : collect (λ i. error_at (get_elem? events i)) s.errors ≡ ok h.errors
    errors-eq = collect-eq _ s.errors h.errors rel.errors

drop_one : {V : Type 0} (xs : List (AgentEvent V)) → drop 1 xs ≡ skip_first xs
drop_one [] = refl
drop_one (x ∷ xs) = refl

-- The replay model reads as the summary.
abbrev pub Shows : {V : Type 0} → RunReplay V → RunView V → Type 0
Shows r v = view r ≡ ok v

-- What follows the loop.
view-fold :
    {V : Type 0} (events : List (AgentEvent V)) (d : Bool) (expected : RunId) (m : Replayed Fold)
    (n : Replayed (RunHistory V))
    → Both (StandsFor events) m n
    → Both Shows
        (do
          s ← m
          status ← recovered d events s
          ok (record {
            id = expected;
            status = status;
            events = events;
            tool_calls = s.tool_calls;
            approvals = s.approvals;
            errors = s.errors;
          }))
        (do
          h ← n
          ok (record {
            id = expected;
            status = recovered_status d h;
            events = events;
            calls = h.calls;
            requests = h.requests;
            errors = h.errors;
          }))
unfolding view
view-fold events d expected m n (both_err x) = both_err x
view-fold events d expected m n (both_ok {a = s} {b = h} rel) = rw (recovered-eq events s h rel d) (
    both_ok (
      rw (calls-eq events s h rel)
        (rw (requests-eq events s h rel) (rw (errors-eq events s h rel)))))

module _ {V : Type 0} where
  started_run-Both :
      (events : List (AgentEvent V)) → Both ◌≡◌ (started_run events) (started_run events)
  unfolding started_run
  started_run-Both [] = both_err _
  started_run-Both (run_started m ∷ rest) = both_ok refl
  started_run-Both (_ ∷ rest) = both_err _

  check_compatibility-Both :
      (compat : ReplayCompatibility) (events : List (AgentEvent V))
      → Both ◌≡◌ (check_compatibility compat events) (check_compatibility compat events)
  unfolding check_compatibility
  check_compatibility-Both strict events = both_ok refl
  check_compatibility-Both legacy_approval_without_resolution events =
      elim (Option-cases (first_sequenced 0 events)) [
        | inl q ↦ rw (q, check_compatibility) (both_ok refl)
        | inr (i, q) ↦ rw (q, check_compatibility) (both_err _)
      ]

module _ {V : Type 0} ⦃e : Eq V⦄ (events : List (AgentEvent V)) (d : Bool)
    (compat : ReplayCompatibility) where
  -- Replaying any log, in any mode, ends as the summary of the log does: with the same error, or
  -- with a replay model whose accessors return exactly the summary's run id, status, events, call
  -- histories, approval requests and errors. No index and no `unreachable!` panics on the way.
  pub replay-refines :
      Both Shows (replay_events_with_mode events d compat) (summary events d compat)
  unfolding replay_events_with_mode summary
  replay-refines = Both-bind _ _ (started_run-Both events) λ expected expected' same.
      Both-bind _ _ (check_compatibility-Both compat events) λ _ _ _. rw same (
        view-fold events d expected' _ _ (
          fold_events-refines compat events expected' 1 (skip_first events) initial blank
            (initial-StandsFor events) (drop_one events)))
