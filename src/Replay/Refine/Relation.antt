-- ===== src/Replay/Refine/Relation.antt =====
-- When the local variables of the loop stand for a history.
use young_agent.Prelude.{
  ℕ, String, Bool, true, false, ◌≡◌, List, [], ◌∷◌, Option, none, some, is_some, is_none, is_empty,
  get_elem?, if◌then◌else◌, ok, nat_eq, string_eq, contains, lookup, find_index, Pairs,
}
use young_agent.Agent.Event.{AgentEvent, AgentError, ApprovalRequest, TerminalRunStatus, RunStatus}
use young_agent.Replay.Timeline.{
  ReplayedToolCallIndex, requested_at, request_at, decision_at, result_at, at_index,
  approval_request_at, error_at,
}
use young_agent.Replay.Step.{Fold}
use young_agent.Replay.Spec.{CallHistory, RunHistory, has_id, has_approval, is_pending}

module _ {V : Type 0} where
  abbrev pub pending_at : Option (CallHistory V) → Bool
  pending_at none = false
  pending_at (some c) = is_pending c

abbrev pub head? {ℓ} : {A : Type ℓ} → List A → Option A
head? [] = none
head? (x ∷ xs) = some x

-- The status that the loop keeps beside its set of pending approvals.
abbrev pub shown : Option TerminalRunStatus → List ℕ → RunStatus
shown (some x) pending = RunStatus.finished x
shown none pending = if is_empty pending then RunStatus.running else RunStatus.awaiting_approval

module _ {V : Type 0} (events : List (AgentEvent V)) where
  -- The index of a call points at the events that its history was taken from.
  pub record Sees (index : ReplayedToolCallIndex) (c : CallHistory V) : Type 0 where
    pub requested : requested_at (get_elem? events index.requested_event) ≡ ok (c.turn, c.call)
    pub approval : at_index request_at events index.approval_event ≡ ok c.approval
    pub decision : at_index decision_at events index.approval_resolution_event ≡ ok c.decision
    pub result : at_index result_at events index.result_event ≡ ok c.result
    pub orderly : is_none c.approval ≡ true → c.decision ≡ none

  abbrev pub SeesRequest : ℕ → ApprovalRequest V → Type 0
  SeesRequest i r = approval_request_at (get_elem? events i) ≡ ok r

  abbrev pub SeesError : ℕ → AgentError → Type 0
  SeesError i x = error_at (get_elem? events i) ≡ ok x

  pub record StandsFor (s : Fold) (h : RunHistory V) : Type 0 where
    pub calls : Pairs Sees s.tool_calls h.calls
    pub by_id : (id : String) → lookup id s.tool_call_indexes ≡ find_index (has_id id) h.calls
    pub by_approval :
        (id : String) → lookup id s.approval_indexes ≡ find_index (has_approval id) h.calls
    pub pending : (i : ℕ) → contains s.pending_approvals i ≡ pending_at (get_elem? h.calls i)
    pub status : s.status ≡ shown h.ending s.pending_approvals
    pub finished : s.finished ≡ is_some h.ending
    pub format : s.approval_log_format ≡ h.format
    pub turns : s.started_turns ≡ h.turns
    pub active : s.active_turn ≡ head? h.turns
    pub requests : Pairs SeesRequest s.approvals h.requests
    pub errors : Pairs SeesError s.errors h.errors
