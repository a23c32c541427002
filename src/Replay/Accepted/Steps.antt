-- ===== src/Replay/Accepted/Steps.antt =====
-- The events that strict replay of crates/event-store/src/replay.rs accepts, and its invariants.
use young_agent.Prelude.{
  ℕ, suc, not, ◌≡◌, List, [], ◌∷◌, none, some, is_some, is_empty, ok, ◌>>◌, Eq, ◌==◌, string_eq,
  contains, Ensures, ensured, failing, Ensures-bind, split, none-of_is_some,
}
use young_agent.Agent.Event.{
  AgentEvent, RunId, TurnId, turn_started, model_output, tool_call_requested, approval_requested,
  approval_resolved, tool_result, error, run_started, run_finished, run_id,
}
use young_agent.Replay.Step.{strict}
use young_agent.Replay.Spec.{
  RunHistory, open_calls, note_place, note, advance, history, note_turn, in_latest,
}
use young_agent.Replay.Accepted.Sound.{IsSound}
use young_agent.Replay.Accepted.Notes.{
  note_call-IsSound, note_request-IsSound, note_decision-IsSound, note_result-IsSound,
  note_ending-IsSound,
}

module _ {V : Type 0} where
  module _ (n : ℕ) (h : RunHistory V) (sound : IsSound h) (live : h.ending ≡ none) where
    in_latest-keeps :
        (t : TurnId) (turns : List TurnId)
        → Ensures
            (λ (h' : RunHistory V). IsSound h' × (h'.ending ≡ none))
            (in_latest n t turns >> ok h)
    in_latest-keeps t [] = failing _
    in_latest-keeps t (latest ∷ earlier) =
        split (not (contains (latest ∷ earlier) t)) (λ q. rw q (failing _))
          λ q. rw q (
            split (not (latest == t)) (λ q2. rw q2 (failing _))
              (λ q2. rw q2 (ensured (sound, live))))

    note_turn-keeps :
        (t : TurnId) → Ensures (λ h'. IsSound h' × (h'.ending ≡ none)) (note_turn n h t)
    unfolding note_turn
    note_turn-keeps t =
        split (contains h.turns t) (λ q. rw q (failing _))
          λ q. rw q (
            split (not (is_empty (open_calls h.calls))) (λ q2. rw q2 (failing _))
              λ q2. rw q2 (
                ensured (
                  record {
                    settled = sound.settled;
                    calls_distinct = sound.calls_distinct;
                    requests_distinct = sound.requests_distinct;
                    asked = sound.asked;
                    closed = sound.closed;
                  },
                  live,
                )))

    note_place-keeps :
        (event : AgentEvent V)
        → Ensures (λ h'. IsSound h' × (h'.ending ≡ none)) (note_place n h event)
    unfolding note_place
    note_place-keeps (turn_started m t) = note_turn-keeps t
    note_place-keeps (model_output m t o) = in_latest-keeps t h.turns
    note_place-keeps (tool_call_requested m t i c) = in_latest-keeps t h.turns
    note_place-keeps (approval_requested m t r) = in_latest-keeps t h.turns
    note_place-keeps (approval_resolved m t i d) = in_latest-keeps t h.turns
    note_place-keeps (tool_result m t r) = in_latest-keeps t h.turns
    note_place-keeps (error m (some t) x) = in_latest-keeps t h.turns
    note_place-keeps (error m none x) = ensured (sound, live)
    note_place-keeps (run_started m) = ensured (sound, live)
    note_place-keeps (run_finished m x) = ensured (sound, live)

module _ {V : Type 0} ⦃e : Eq V⦄ where
  note-IsSound :
      (n : ℕ) (h : RunHistory V)
      → IsSound h
      → h.ending ≡ none
      → (event : AgentEvent V) → Ensures IsSound (note strict n h event)
  unfolding note
  note-IsSound n h sound live (run_started m) = failing _
  note-IsSound n h sound live (tool_call_requested m t i c) = note_call-IsSound n h sound live t c
  note-IsSound n h sound live (approval_requested m t r) = note_request-IsSound n h sound live t r
  note-IsSound n h sound live (approval_resolved m t id d) =
      note_decision-IsSound n h sound live t id d
  note-IsSound n h sound live (tool_result m t r) = note_result-IsSound n h sound live t r
  note-IsSound n h sound live (run_finished m x) = note_ending-IsSound n h sound live x
  note-IsSound n h sound live (turn_started m t) = ensured sound
  note-IsSound n h sound live (model_output m t o) = ensured sound
  note-IsSound n h sound live (error m t x) = ensured (record {
    settled = sound.settled;
    calls_distinct = sound.calls_distinct;
    requests_distinct = sound.requests_distinct;
    asked = sound.asked;
    closed = sound.closed;
  })

  advance-IsSound :
      (expected : RunId) (n : ℕ) (h : RunHistory V) (event : AgentEvent V)
      → IsSound h
      → Ensures IsSound (advance strict expected n h event)
  unfolding advance
  advance-IsSound expected n h event sound =
      split (is_some h.ending) (λ q. rw q (failing _))
        λ q. rw q (
          split (not (run_id event == expected)) (λ q2. rw q2 (failing _))
            λ q2. rw q2 (
              Ensures-bind (λ h'. note strict n h' event)
                (note_place-keeps n h sound (none-of_is_some h.ending q) event)
                (λ h' k. note-IsSound n h' k.0 k.1 event)))

  pub history-IsSound :
      (expected : RunId) (n : ℕ) (events : List (AgentEvent V)) (h : RunHistory V)
      → IsSound h
      → Ensures IsSound (history strict expected n events h)
  unfolding history
  history-IsSound expected n [] h sound = ensured sound
  history-IsSound expected n (event ∷ rest) h sound =
      Ensures-bind (λ h'. history strict expected (suc n) rest h')
        (advance-IsSound expected n h event sound)
        (λ h' sound'. history-IsSound expected (suc n) rest h' sound')
