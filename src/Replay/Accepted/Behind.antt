-- ===== src/Replay/Accepted/Behind.antt =====
-- The history behind a log that strict replay accepts, and what its replay model shows of it.
use young_agent.Prelude.{
  Bool, true, false, ◌≡◌, refl, ap, subst, ok-injective, List, [], ◌∷◌, ◌++◌, none, some, ok,
  >>=-eq-ok, Eq, string_eq, All, Both, both_ok, both_err, Ensures-ok, arith,
}
use young_agent.Agent.Event.{AgentEvent, run_started, run_id, RunId, RunStatus, TerminalRunStatus}
use young_agent.Replay.Timeline.{Replayed}
use young_agent.Replay.Step.{strict}
use young_agent.Replay.Run.{
  RunReplay, started_run, check_compatibility, skip_first, replay_events_with_mode,
}
use young_agent.Replay.Spec.{RunHistory, RunView, blank, history, summary, recovered_status}
use young_agent.Replay.View.{view, tool_calls, approvals, errors}
use young_agent.Replay.Refine.Whole.{Shows, replay-refines}
use young_agent.Replay.Accepted.Contents.{all_of, requested, asked, raised}
use young_agent.Replay.Accepted.Sound.{IsSound}
use young_agent.Replay.Accepted.Steps.{history-IsSound}

blank-IsSound : {V : Type 0} → IsSound (blank {V = V})
blank-IsSound = record {
  settled = tt;
  calls_distinct = tt;
  requests_distinct = tt;
  asked = λ k. refl;
  closed = tt;
}

pub finished_of :
    (status : RunStatus) {x : TerminalRunStatus}
    → elim status [ RunStatus.finished y ↦ some y | _ ↦ none ] ≡ some x
    → status ≡ RunStatus.finished x
finished_of (RunStatus.finished y) h = cc
finished_of _ h = cc

module _ {V : Type 0} where
  pub view-status : (r : RunReplay V) (v : RunView V) → view r ≡ ok v → r.status ≡ v.status
  unfolding view
  view-status r v q =
      let (cs, a, q1) = >>=-eq-ok (tool_calls r) _ q in
      let (qs, b, q2) = >>=-eq-ok (approvals r) _ q1 in
      let (xs, c, q3) = >>=-eq-ok (errors r) _ q2 in
      ap (λ (w : RunView V). w.status) (ok-injective q3)

  pub ending-of :
      (d : Bool) (h : RunHistory V) {x : TerminalRunStatus}
      → recovered_status d h ≡ RunStatus.finished x
      → h.ending ≡ some x
  ending-of true h q = ground arith
  ending-of false h q = ground arith

module _ {V : Type 0} ⦃e : Eq V⦄ (events : List (AgentEvent V)) (d : Bool) where
  -- The history behind a summary.
  pub record Behind (v : RunView V) : Type 0 where
    pub behind : RunHistory V
    pub started : started_run events ≡ ok v.id
    pub follows : history strict v.id 2 (skip_first events) blank ≡ ok behind
    pub calls : v.calls ≡ behind.calls
    pub requests : v.requests ≡ behind.requests
    pub errors : v.errors ≡ behind.errors
    pub status : v.status ≡ recovered_status d behind
    pub sound : IsSound behind

  summary-Behind : (v : RunView V) → summary events d strict ≡ ok v → Behind v
  unfolding summary check_compatibility
  summary-Behind v q =
      let (id, started, q1) = >>=-eq-ok (started_run events) _ q in
      let (h, follows, q2) = >>=-eq-ok (history strict id 2 (skip_first events) blank) _ q1 in
      subst Behind (ok-injective q2) (record {
        behind = h;
        started = started;
        follows = follows;
        calls = refl;
        requests = refl;
        errors = refl;
        status = refl;
        sound = Ensures-ok (history-IsSound id 2 (skip_first events) blank blank-IsSound) follows;
      })

  Both-accepted :
      {m : Replayed (RunReplay V)} {n : Replayed (RunView V)} {r : RunReplay V}
      → Both Shows m n
      → m ≡ ok r
      → (v : RunView V) × (view r ≡ ok v) × (n ≡ ok v)
  Both-accepted (both_ok {a = r'} {b = v} q) p =
      (v, subst (λ x. view x ≡ ok v) (ok-injective p) q, refl)
  Both-accepted (both_err x) p = absurd (cc)

  -- An accepted log reads as a summary with its history.
  pub accepted :
      (r : RunReplay V)
      → replay_events_with_mode events d strict ≡ ok r
      → (v : RunView V) × (view r ≡ ok v) × Behind v
  accepted r p =
      let (v, q, k) = Both-accepted (replay-refines events d strict) p in (v, q, summary-Behind v k)

module _ {V : Type 0} where
  pub all_of-skip_first :
      (events : List (AgentEvent V)) {id : RunId}
      → started_run events ≡ ok id
      → (all_of requested events ≡ all_of requested (skip_first events))
        × (all_of asked events ≡ all_of asked (skip_first events))
        × (all_of raised events ≡ all_of raised (skip_first events))
  unfolding started_run
  all_of-skip_first [] q = absurd (cc)
  all_of-skip_first (run_started m ∷ rest) q = (refl, refl, refl)
  all_of-skip_first (_ ∷ rest) q = absurd (cc)

  pub All-started :
      (events : List (AgentEvent V)) {id : RunId}
      → started_run events ≡ ok id
      → All (λ event. run_id event ≡ id) (skip_first events)
      → All (λ event. run_id event ≡ id) events
  unfolding started_run
  All-started [] q h = absurd (cc)
  All-started (run_started m ∷ rest) q h = (ok-injective q, h)
  All-started (_ ∷ rest) q h = absurd (cc)

  pub started_run-prefix :
      (x : AgentEvent V) (xs ys : List (AgentEvent V)) {id : RunId}
      → started_run (x ∷ xs ++ ys) ≡ ok id
      → started_run (x ∷ xs) ≡ ok id
  unfolding started_run
  started_run-prefix (run_started m) xs ys q = q
  started_run-prefix _ xs ys q = q

  pub view-id : (r : RunReplay V) (v : RunView V) → view r ≡ ok v → r.id ≡ v.id
  unfolding view
  view-id r v q =
      let (cs, a, q1) = >>=-eq-ok (tool_calls r) _ q in
      let (qs, b, q2) = >>=-eq-ok (approvals r) _ q1 in
      let (xs, c, q3) = >>=-eq-ok (errors r) _ q2 in ap (λ (w : RunView V). w.id) (ok-injective q3)

  pub Both-accepts :
      {m : Replayed (RunReplay V)} {n : Replayed (RunView V)}
      → Both Shows m n
      → ((v : RunView V) × (n ≡ ok v))
      → (r : RunReplay V) × (m ≡ ok r)
  Both-accepts (both_ok {a = r} q) p = (r, refl)
  Both-accepts (both_err x) p = absurd (cc (p.1))

  -- A log with a history has a summary.
  pub summary-of :
      ⦃e : Eq V⦄ (events : List (AgentEvent V)) (d : Bool) (id : RunId) (h : RunHistory V)
      → started_run events ≡ ok id
      → history strict id 2 (skip_first events) blank ≡ ok h
      → (v : RunView V) × (summary events d strict ≡ ok v)
  unfolding summary check_compatibility
  summary-of events d id h started follows = (
    record {
      id = id;
      status = recovered_status d h;
      events = events;
      calls = h.calls;
      requests = h.requests;
      errors = h.errors;
    },
    rw (started, follows),
  )
