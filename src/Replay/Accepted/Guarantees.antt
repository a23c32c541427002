-- ===== src/Replay/Accepted/Guarantees.antt =====
-- What a caller of crates/event-store/src/replay.rs may rely on when strict replay accepts a log.
use young_agent.Prelude.{
  suc, Bool, true, ◌≡◌, sym, subst, ◌∙◌, List, [], ◌∷◌, ◌++◌, some, ok, >>=-eq-ok, Eq, string_eq,
  map, All, Distinct,
}
use young_agent.Agent.Event.{
  AgentEvent, Envelope, run_finished, run_id, RunStatus, TerminalRunStatus,
}
use young_agent.Replay.Step.{strict, is_closing}
use young_agent.Replay.Run.{RunReplay, terminal_status, skip_first, replay_events_with_mode}
use young_agent.Replay.Spec.{RunView, blank, history, advance, open_calls}
use young_agent.Replay.View.{view}
use young_agent.Replay.Refine.Whole.{replay-refines}
use young_agent.Replay.Accepted.Contents.{all_of, requested, asked, raised, call_of, history-all_of}
use young_agent.Replay.Accepted.Order.{
  history-append, history-ended, history-run_id, advance-ending,
}
use young_agent.Replay.Accepted.Sound.{IsClosed, CallSettled, call_id, request_id}
use young_agent.Replay.Accepted.Behind.{
  accepted, view-status, finished_of, ending-of, all_of-skip_first, All-started, started_run-prefix,
  view-id, Both-accepts, summary-of,
}

module _ {V : Type 0} ⦃e : Eq V⦄ (events : List (AgentEvent V)) (d : Bool) (r : RunReplay V)
    (accept : replay_events_with_mode events d strict ≡ ok r) where
  -- If strict replay accepts a log, the accessors of the replay model do not panic, and the result of
  -- every tool call agrees with its approval: a denied call has no result but the canonical denial
  -- with the recorded reason, an approved call or a call that needed no approval has no denial, and
  -- a call that still waits for a decision has no result.
  pub results_agree : (v : RunView V) × (view r ≡ ok v) × All CallSettled v.calls
  results_agree =
      let (v, q, b) = accepted events d r accept in
      (v, q, subst (All CallSettled) (sym b.calls) b.sound.settled)

  -- If strict replay accepts a log, no two of its tool calls share an id, and no two of its approval
  -- requests do.
  pub ids_apart :
      (v : RunView V) × (view r ≡ ok v)
      × Distinct (map call_id v.calls)
      × Distinct (map request_id v.requests)
  ids_apart =
      let (v, q, b) = accepted events d r accept in
      (v, q, rw b.calls b.sound.calls_distinct, rw b.requests b.sound.requests_distinct)

  -- If strict replay accepts a log whose run completed or failed, every tool call has a result.
  pub closed_runs :
      (x : TerminalRunStatus)
      → terminal_status r ≡ some x
      → is_closing x ≡ true
      → (v : RunView V) × (view r ≡ ok v) × (open_calls v.calls ≡ [])
  closed_runs x ends closing =
      let (v, q, b) = accepted events d r accept in
      let finish : v.status ≡ RunStatus.finished x =
        sym (view-status r v q) ∙ finished_of r.status ends in
      let ending : b.behind.ending ≡ some x = ending-of d b.behind (sym b.status ∙ finish) in
      (v, q, rw b.calls (subst (λ o. IsClosed o b.behind.calls) ending b.sound.closed closing))

  -- If strict replay accepts a log, the accessors of the replay model show the calls of its
  -- `ToolCallRequested` events, the requests of its `ApprovalRequested` events and the errors of its
  -- `Error` events, each in the order of the log, and no others.
  pub shows_contents :
      (v : RunView V) × (view r ≡ ok v)
      × (map call_of v.calls ≡ all_of requested events)
      × (v.requests ≡ all_of asked events)
      × (v.errors ≡ all_of raised events)
  shows_contents =
      let (v, q, b) = accepted events d r accept in
      let (cs, qs, xs) =
        history-all_of strict v.id 2 (skip_first events) blank b.behind b.follows in
      let (p1, p2, p3) = all_of-skip_first events b.started in
      (v, q, rw b.calls (cs ∙ sym p1), rw b.requests (qs ∙ sym p2), rw b.errors (xs ∙ sym p3))

  -- If strict replay accepts a log, every event of it carries the run id of the replay model.
  pub one_run : All (λ event. run_id event ≡ r.id) events
  one_run =
      let (v, q, b) = accepted events d r accept in
      rw (view-id r v q) (
        All-started events b.started
          (history-run_id strict v.id 2 (skip_first events) blank b.behind b.follows))

module _ {V : Type 0} ⦃e : Eq V⦄ where
  -- If strict replay accepts a log, it accepts every prefix that holds the first event, with and
  -- without the detection of recovery work.
  pub prefix_accepted :
      (x : AgentEvent V) (xs ys : List (AgentEvent V)) (d d' : Bool) (r : RunReplay V)
      → replay_events_with_mode ((x ∷ xs) ++ ys) d strict ≡ ok r
      → (r' : RunReplay V) × (replay_events_with_mode (x ∷ xs) d' strict ≡ ok r')
  prefix_accepted x xs ys d d' r accept =
      let (v, q, b) = accepted (x ∷ xs ++ ys) d r accept in
      let (m, g, front, back) = history-append strict v.id 2 xs ys blank b.behind b.follows in
      Both-accepts (replay-refines (x ∷ xs) d' strict)
        (summary-of (x ∷ xs) d' v.id g (started_run-prefix x xs ys b.started) front)

  -- If strict replay accepts a log with a `RunFinished`, that event is the last one.
  pub finish_is_last :
      (x : AgentEvent V) (xs ys : List (AgentEvent V)) (m : Envelope V) (ends : TerminalRunStatus)
      (d : Bool) (r : RunReplay V)
      → replay_events_with_mode ((x ∷ xs) ++ run_finished m ends ∷ ys) d strict ≡ ok r
      → ys ≡ []
  unfolding history
  finish_is_last x xs ys m ends d r accept =
      let (v, q, b) = accepted ((x ∷ xs) ++ run_finished m ends ∷ ys) d r accept in
      let (n, g, front, back) = history-append strict v.id 2 xs _ blank b.behind b.follows in
      let (g', one, more) = >>=-eq-ok (advance strict v.id n g (run_finished m ends)) _ back in
      history-ended strict v.id (suc n) ys g' b.behind
        (advance-ending strict v.id n g g' m ends one) more
