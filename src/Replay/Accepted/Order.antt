-- ===== src/Replay/Accepted/Order.antt =====
-- Histories of logs that are cut in two, and the place of `RunFinished`.
use young_agent.Prelude.{
  ℕ, suc, true, not, ◌≡◌, refl, List, [], ◌∷◌, ◌++◌, is_some, ok, >>=-eq-ok, reject_if, Eq, ◌==◌,
  string_eq, All, arith, eq_iff,
}
use young_agent.Agent.Event.{AgentEvent, Envelope, RunId, TerminalRunStatus, run_finished, run_id}
use young_agent.Replay.Step.{ReplayCompatibility}
use young_agent.Replay.Spec.{RunHistory, note, note_ending, note_place, advance, history}

module _ {V : Type 0} ⦃e : Eq V⦄ (compat : ReplayCompatibility) (expected : RunId) where
  -- A log that makes a history does so up to any of its events.
  pub history-append :
      (n : ℕ) (xs ys : List (AgentEvent V)) (h h' : RunHistory V)
      → history compat expected n (xs ++ ys) h ≡ ok h'
      → (m : ℕ) × (g : RunHistory V) × (history compat expected n xs h ≡ ok g)
        × (history compat expected m ys g ≡ ok h')
  unfolding history
  history-append n [] ys h h' q = (n, h, refl, q)
  history-append n (x ∷ xs) ys h h' q =
      let (g, one, more) = >>=-eq-ok (advance compat expected n h x) _ q in
      let (m, g', front, back) = history-append (suc n) xs ys g h' more in
      (m, g', rw one front, back)

  -- Nothing follows the end of a run.
  pub history-ended :
      (n : ℕ) (ys : List (AgentEvent V)) (h h' : RunHistory V)
      → is_some h.ending ≡ true
      → history compat expected n ys h ≡ ok h'
      → ys ≡ []
  unfolding history advance
  history-ended n [] h h' ended q = refl
  history-ended n (y ∷ ys) h h' ended q = ground arith

  pub advance-run_id :
      (n : ℕ) (h h' : RunHistory V) (event : AgentEvent V)
      → advance compat expected n h event ≡ ok h'
      → run_id event ≡ expected
  unfolding advance
  advance-run_id n h h' event q =
      let (_, _, q1) = >>=-eq-ok (reject_if (is_some h.ending) _) _ q in
      let (_, same, _) = >>=-eq-ok (reject_if (not (run_id event == expected)) _) _ q1 in
      ground (arith, eq_iff (run_id event) expected)

  -- Every event of a history is of its run.
  pub history-run_id :
      (n : ℕ) (events : List (AgentEvent V)) (h h' : RunHistory V)
      → history compat expected n events h ≡ ok h'
      → All (λ event. run_id event ≡ expected) events
  unfolding history
  history-run_id n [] h h' q = tt
  history-run_id n (event ∷ rest) h h' q =
      let (g, one, more) = >>=-eq-ok (advance compat expected n h event) _ q in
      (advance-run_id n h g event one, history-run_id (suc n) rest g h' more)

  pub advance-ending :
      (n : ℕ) (h h' : RunHistory V) (m : Envelope V) (x : TerminalRunStatus)
      → advance compat expected n h (run_finished m x) ≡ ok h'
      → is_some h'.ending ≡ true
  unfolding advance note_place note note_ending
  advance-ending n h h' m x q = ground arith
