-- ===== src/Replay/Accepted/Contents.antt =====
-- The calls, approval requests and errors of a log that crates/event-store/src/replay.rs accepts.
use young_agent.Prelude.{
  ℕ, suc, String, Bool, ◌≡◌, refl, ◌∙◌, List, [], ◌∷◌, ◌++◌, none, some, ok, ◌>>◌, reject_if,
  is_some, not, ◌==◌, >>=-eq-ok, Eq, string_eq, map, adjust, arith,
}
use mathlib.Core.List.{map-append, append-nil, append_assoc}
use young_agent.Model.Stream.{ModelToolCallId}
use young_agent.Tool.Call.{ToolCall, ToolResult}
use young_agent.Agent.Event.{
  AgentEvent, RunId, TurnId, ApprovalRequest, ApprovalDecision, AgentError, tool_call_requested,
  approval_requested, error, approval_resolved, tool_result, run_started, run_finished,
  turn_started, model_output, TerminalRunStatus, Envelope, run_id,
}
use young_agent.Replay.Step.{ReplayCompatibility}
use young_agent.Replay.Spec.{
  CallHistory, RunHistory, note_call, note_request, note_decision, note_result, note_ending,
  note_place, note, advance, history, has_id, has_approval, in_latest,
}

module _ {V : Type 0} where
  abbrev pub requested : AgentEvent V → List (ToolCall V)
  requested (tool_call_requested m t i c) = c ∷ []
  requested _ = []

  abbrev pub asked : AgentEvent V → List (ApprovalRequest V)
  asked (approval_requested m t r) = r ∷ []
  asked _ = []

  abbrev pub raised : AgentEvent V → List AgentError
  raised (error m t x) = x ∷ []
  raised _ = []

  abbrev pub call_of : CallHistory V → ToolCall V
  call_of c = c.call

  -- What one event adds to a history.
  record Adds (event : AgentEvent V) (h h' : RunHistory V) : Type 0 where
    calls : map call_of h'.calls ≡ map call_of h.calls ++ requested event
    requests : h'.requests ≡ h.requests ++ asked event
    errors : h'.errors ≡ h.errors ++ raised event

  map-adjust :
      (p : CallHistory V → Bool) (f : CallHistory V → CallHistory V) (xs : List (CallHistory V))
      → ((x : CallHistory V) → (f x).call ≡ x.call)
      → map call_of (adjust p f xs) ≡ map call_of xs
  map-adjust p f [] h = refl
  map-adjust p f (x ∷ xs) h = ground (arith, map-adjust p f xs h, h x)

module _ {V : Type 0} where
  -- A write to a history that keeps its call, and a result or a decision that is noted so.
  note_result-Adds :
      (compat : ReplayCompatibility) (n : ℕ) (h h' : RunHistory V) (m : Envelope V) (t : TurnId)
      (r : ToolResult V)
      → note_result n h compat t r ≡ ok h'
      → Adds (tool_result m t r) h h'
  unfolding note_result
  note_result-Adds compat n h h' m t r q = ground (
    arith,
    map-adjust (has_id r.call_id) (λ x. record x { result = some r }) h.calls (λ x. refl),
    append-nil (map call_of h.calls),
    append-nil h.requests,
    append-nil h.errors,
  )

  note_decision-Adds :
      (compat : ReplayCompatibility) (n : ℕ) (h h' : RunHistory V) (m : Envelope V) (t : TurnId)
      (id : String) (d : ApprovalDecision)
      → note_decision n h compat t id d ≡ ok h'
      → Adds (approval_resolved m t id d) h h'
  unfolding note_decision
  note_decision-Adds compat n h h' m t id d q = ground (
    arith,
    map-adjust (has_approval id) (λ x. record x { decision = some d }) h.calls (λ x. refl),
    append-nil (map call_of h.calls),
    append-nil h.requests,
    append-nil h.errors,
  )

  note_request-Adds :
      ⦃e : Eq V⦄ (n : ℕ) (h h' : RunHistory V) (m : Envelope V) (t : TurnId) (r : ApprovalRequest V)
      → note_request n h t r ≡ ok h'
      → Adds (approval_requested m t r) h h'
  unfolding note_request
  note_request-Adds n h h' m t r q = ground (
    arith,
    map-adjust (has_id r.call.id) (λ x. record x { approval = some r }) h.calls (λ x. refl),
    append-nil (map call_of h.calls),
    append-nil h.errors,
  )

  note_call-Adds :
      (n : ℕ) (h h' : RunHistory V) (m : Envelope V) (t : TurnId) (i : ModelToolCallId)
      (c : ToolCall V)
      → note_call n h t c ≡ ok h'
      → Adds (tool_call_requested m t i c) h h'
  unfolding note_call
  note_call-Adds n h h' m t i c q = ground (
    arith,
    map-append call_of h.calls
        (record { turn = t; call = c; approval = none; decision = none; result = none } ∷ []),
    append-nil h.requests,
    append-nil h.errors,
  )

  note_ending-Adds :
      (n : ℕ) (h h' : RunHistory V) (m : Envelope V) (x : TerminalRunStatus)
      → note_ending n h x ≡ ok h'
      → Adds (run_finished m x) h h'
  unfolding note_ending
  note_ending-Adds n h h' m x q =
      ground (arith, append-nil (map call_of h.calls), append-nil h.requests, append-nil h.errors)

  -- Only turns change before the event itself is noted.
  record Keeps (h h' : RunHistory V) : Type 0 where
    calls : h'.calls ≡ h.calls
    requests : h'.requests ≡ h.requests
    errors : h'.errors ≡ h.errors

  in_latest-Keeps :
      (n : ℕ) (h h' : RunHistory V) (t : TurnId) (turns : List TurnId)
      → (in_latest n t turns >> ok h) ≡ ok h'
      → Keeps h h'
  in_latest-Keeps n h h' t [] q = ground arith
  in_latest-Keeps n h h' t (latest ∷ earlier) q = ground arith

  note_place-Keeps :
      (n : ℕ) (h h' : RunHistory V) (event : AgentEvent V)
      → note_place n h event ≡ ok h'
      → Keeps h h'
  unfolding note_place
  note_place-Keeps n h h' (turn_started m t) q = ground arith
  note_place-Keeps n h h' (model_output m t o) q = in_latest-Keeps n h h' t h.turns q
  note_place-Keeps n h h' (tool_call_requested m t i c) q = in_latest-Keeps n h h' t h.turns q
  note_place-Keeps n h h' (approval_requested m t r) q = in_latest-Keeps n h h' t h.turns q
  note_place-Keeps n h h' (approval_resolved m t i d) q = in_latest-Keeps n h h' t h.turns q
  note_place-Keeps n h h' (tool_result m t r) q = in_latest-Keeps n h h' t h.turns q
  note_place-Keeps n h h' (error m (some t) x) q = in_latest-Keeps n h h' t h.turns q
  note_place-Keeps n h h' (error m none x) q = ground arith
  note_place-Keeps n h h' (run_started m) q = ground arith
  note_place-Keeps n h h' (run_finished m x) q = ground arith

abbrev pub all_of {ℓ κ} : {A : Type ℓ} {B : Type κ} → (A → List B) → List A → List B
all_of f [] = []
all_of f (x ∷ xs) = f x ++ all_of f xs

module _ {V : Type 0} ⦃e : Eq V⦄ (compat : ReplayCompatibility) where
  note-Adds :
      (n : ℕ) (h h' : RunHistory V) (event : AgentEvent V)
      → note compat n h event ≡ ok h'
      → Adds event h h'
  unfolding note
  note-Adds n h h' (run_started m) q = cc
  note-Adds n h h' (tool_call_requested m t i c) q = note_call-Adds n h h' m t i c q
  note-Adds n h h' (approval_requested m t r) q = note_request-Adds n h h' m t r q
  note-Adds n h h' (approval_resolved m t id d) q = note_decision-Adds compat n h h' m t id d q
  note-Adds n h h' (tool_result m t r) q = note_result-Adds compat n h h' m t r q
  note-Adds n h h' (run_finished m x) q = note_ending-Adds n h h' m x q
  note-Adds n h h' (error m t x) q =
      ground (arith, append-nil (map call_of h.calls), append-nil h.requests)
  note-Adds n h h' (turn_started m t) q =
      ground (arith, append-nil (map call_of h.calls), append-nil h.requests, append-nil h.errors)
  note-Adds n h h' (model_output m t o) q =
      ground (arith, append-nil (map call_of h.calls), append-nil h.requests, append-nil h.errors)

  advance-Adds :
      (expected : RunId) (n : ℕ) (h h' : RunHistory V) (event : AgentEvent V)
      → advance compat expected n h event ≡ ok h'
      → Adds event h h'
  unfolding advance
  advance-Adds expected n h h' event q =
      let (_, _, q1) = >>=-eq-ok (reject_if (is_some h.ending) _) _ q in
      let (_, _, q2) = >>=-eq-ok (reject_if (not (run_id event == expected)) _) _ q1 in
      let (g, placed, noted) = >>=-eq-ok (note_place n h event) _ q2 in
      let k = note_place-Keeps n h g event placed in
      let a = note-Adds n g h' event noted in
      record {
        calls = rw (← k.calls) a.calls;
        requests = rw (← k.requests) a.requests;
        errors = rw (← k.errors) a.errors;
      }

  -- The calls, requests and errors of a history are those of its events.
  pub history-all_of :
      (expected : RunId) (n : ℕ) (events : List (AgentEvent V)) (h h' : RunHistory V)
      → history compat expected n events h ≡ ok h'
      → (map call_of h'.calls ≡ map call_of h.calls ++ all_of requested events)
        × (h'.requests ≡ h.requests ++ all_of asked events)
        × (h'.errors ≡ h.errors ++ all_of raised events)
  unfolding history
  history-all_of expected n [] h h' q =
      ground (arith, append-nil (map call_of h.calls), append-nil h.requests, append-nil h.errors)
  history-all_of expected n (event ∷ rest) h h' q =
      let (g, one, more) = >>=-eq-ok (advance compat expected n h event) _ q in
      let a = advance-Adds expected n h g event one in
      let b = history-all_of expected (suc n) rest g h' more in
      (
        b.0
            ∙ rw a.calls
                (append_assoc (map call_of h.calls) (requested event) (all_of requested rest)),
        b.1 ∙ rw a.requests (append_assoc h.requests (asked event) (all_of asked rest)),
        b.2 ∙ rw a.errors (append_assoc h.errors (raised event) (all_of raised rest)),
      )
