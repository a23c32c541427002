-- ===== src/Replay/Refine/Decisions.antt =====
-- `ApprovalResolved` and `ToolResult` in crates/event-store/src/replay.rs: the fold and the history
-- step by step.
use young_agent.Prelude.{
  ℕ, ◌+◌, String, Bool, true, false, not, ◌≡◌, refl, sym, ◌∙◌, List, Option, none, some, is_some,
  get_elem?, set, ok, err, ◌==◌, nat_eq, string_eq, remove, find_index, find, Both, both_ok,
  both_err, split, reject_if, ◌>>◌, Found-of, missing, found, Pairs-get_elem?, Pairs-set,
  adjust-eq-set, find_index-set_same, arith, ◌⊎◌, inl, inr,
}
use young_agent.Tool.Call.{ToolResult}
use young_agent.Agent.Event.{
  AgentEvent, ApprovalRequest, TurnId, approval_resolved, tool_result, Envelope, ApprovalDecision,
  approve, deny,
}
use young_agent.Replay.Timeline.{ReplayedToolCallIndex, ReplayError}
use young_agent.Replay.Step.{
  Fold, resolve_approval, record_result, check_result, after_approval, ReplayCompatibility, strict,
  legacy_approval_without_resolution, is_mixed, undetermined, legacy, resolved, ApprovalLogFormat,
  is_denial, is_odd_denial, is_canonical_denial,
}
use young_agent.Replay.Spec.{
  CallHistory, RunHistory, has_id, has_approval, is_pending, note_decision, note_result,
}
use young_agent.Replay.Refine.Relation.{Sees, StandsFor}
use young_agent.Replay.Refine.Pending.{pending-remove, after_approval-remove}

guarded :
    (b : Bool) (x : ReplayError) (f : ApprovalLogFormat)
    → ((g : ApprovalLogFormat) × ((reject_if b x >> ok f) ≡ ok g))
      ⊎ ((y : ReplayError) × ((reject_if b x >> ok f) ≡ err y))
guarded true x f = inr (x, refl)
guarded false x f = inl (f, refl)

-- The tests on a result end in a format or in an error.
pub check_result-cases :
    {V : Type 0} (compat : ReplayCompatibility) (n : ℕ) (format : ApprovalLogFormat)
    (a : Option (ApprovalRequest V)) (d : Option ApprovalDecision) (r : ToolResult V)
    → ((f : ApprovalLogFormat) × (check_result compat n format a d r ≡ ok f))
      ⊎ ((x : ReplayError) × (check_result compat n format a d r ≡ err x))
unfolding check_result
check_result-cases strict n format none none r = guarded (is_denial r.output) _ format
check_result-cases strict n format none (some approve) r = guarded (is_denial r.output) _ format
check_result-cases strict n format none (some (deny why)) r =
    guarded (not (is_canonical_denial why r.output)) _ format
check_result-cases strict n format (some a) none r = inr (_, refl)
check_result-cases strict n format (some a) (some approve) r = guarded (is_denial r.output) _ format
check_result-cases strict n format (some a) (some (deny why)) r =
    guarded (not (is_canonical_denial why r.output)) _ format
check_result-cases legacy_approval_without_resolution n undetermined none none r =
    guarded (is_denial r.output) _ undetermined
check_result-cases legacy_approval_without_resolution n undetermined none (some approve) r =
    guarded (is_denial r.output) _ undetermined
check_result-cases legacy_approval_without_resolution n undetermined none (some (deny why)) r =
    guarded (not (is_canonical_denial why r.output)) _ undetermined
check_result-cases legacy_approval_without_resolution n undetermined (some a) none r =
    guarded (is_odd_denial r.output) _ legacy
check_result-cases legacy_approval_without_resolution n undetermined (some a) (some approve) r =
    guarded (is_denial r.output) _ undetermined
check_result-cases legacy_approval_without_resolution n undetermined (some a) (some (deny why)) r =
    guarded (not (is_canonical_denial why r.output)) _ undetermined
check_result-cases legacy_approval_without_resolution n legacy none none r =
    guarded (is_denial r.output) _ legacy
check_result-cases legacy_approval_without_resolution n legacy none (some approve) r =
    guarded (is_denial r.output) _ legacy
check_result-cases legacy_approval_without_resolution n legacy none (some (deny why)) r =
    guarded (not (is_canonical_denial why r.output)) _ legacy
check_result-cases legacy_approval_without_resolution n legacy (some a) none r =
    guarded (is_odd_denial r.output) _ legacy
check_result-cases legacy_approval_without_resolution n legacy (some a) (some approve) r =
    guarded (is_denial r.output) _ legacy
check_result-cases legacy_approval_without_resolution n legacy (some a) (some (deny why)) r =
    guarded (not (is_canonical_denial why r.output)) _ legacy
check_result-cases legacy_approval_without_resolution n resolved none none r =
    guarded (is_denial r.output) _ resolved
check_result-cases legacy_approval_without_resolution n resolved none (some approve) r =
    guarded (is_denial r.output) _ resolved
check_result-cases legacy_approval_without_resolution n resolved none (some (deny why)) r =
    guarded (not (is_canonical_denial why r.output)) _ resolved
check_result-cases legacy_approval_without_resolution n resolved (some a) none r = inr (_, refl)
check_result-cases legacy_approval_without_resolution n resolved (some a) (some approve) r =
    guarded (is_denial r.output) _ resolved
check_result-cases legacy_approval_without_resolution n resolved (some a) (some (deny why)) r =
    guarded (not (is_canonical_denial why r.output)) _ resolved

module _ {V : Type 0} (events : List (AgentEvent V)) (index : ℕ) (s : Fold) (h : RunHistory V) where
  module _ (rel : StandsFor events s h) (live : h.ending ≡ none) where
    -- A call leaves the set of pending approvals and keeps its ids.
    settled-StandsFor :
        (format : ApprovalLogFormat) (i : ℕ) (x' : ReplayedToolCallIndex) (c c' : CallHistory V)
        → get_elem? h.calls i ≡ some c
        → Sees events x' c'
        → c'.call ≡ c.call
        → c'.approval ≡ c.approval
        → is_pending c' ≡ false
        → StandsFor events
            (record s {
              approval_log_format = format;
              tool_calls = set s.tool_calls i x';
              pending_approvals = remove i s.pending_approvals;
              status = after_approval s.status (remove i s.pending_approvals);
            })
            (record h { calls = set h.calls i c'; format = format })
    settled-StandsFor format i x' c c' g sees same_call same_approval settled = record {
      calls = Pairs-set (Sees events) s.tool_calls h.calls i x' c' rel.calls sees;
      by_id = λ id.
          rel.by_id id ∙ sym (find_index-set_same (has_id id) h.calls i c c' g (rw same_call));
      by_approval = λ id.
          rel.by_approval id
          ∙ sym (find_index-set_same (has_approval id) h.calls i c c' g (rw same_approval));
      pending = pending-remove s.pending_approvals h.calls i c c' rel.pending g settled;
      status = rw (rel.status, live) (after_approval-remove i s.pending_approvals);
      finished = rel.finished;
      format = refl;
      turns = rel.turns;
      active = rel.active;
      requests = rel.requests;
      errors = rel.errors;
    }

    -- The approval is known, and asked for the call at position `i`.
    resolve_approval-known :
        (compat : ReplayCompatibility) (t : TurnId) (m : Envelope V) (id : String)
        (d : ApprovalDecision) (i : ℕ) (x : ReplayedToolCallIndex) (c : CallHistory V)
        → get_elem? events index ≡ some (approval_resolved m t id d)
        → find_index (has_approval id) h.calls ≡ some i
        → find (has_approval id) h.calls ≡ some c
        → has_approval id c ≡ true
        → get_elem? h.calls i ≡ some c
        → get_elem? s.tool_calls i ≡ some x
        → Sees events x c
        → Both
            (StandsFor events)
            (resolve_approval compat events index s t id)
            (note_decision (index + 1) h compat t id d)
    unfolding resolve_approval note_decision
    resolve_approval-known compat t m id d i x c here at by asked g gx sees =
        let c' : CallHistory V = record c { decision = some d } in
        rw (rel.by_approval id ∙ at, by, gx, sees.requested)
          (split (not (c.turn == t)) (λ q. rw q (both_err _))
            λ q.
              rw (q, sees.decision)
                (split (is_some c.decision) (λ q2. rw q2 (both_err _))
                  λ q2.
                    rw (q2, sees.result)
                      (split (is_some c.result) (λ q3. rw q3 (both_err _))
                        λ q3.
                          rw (q3, rel.format)
                            (split (is_mixed compat h.format) (λ q4. rw q4 (both_err _))
                              λ q4.
                                rw
                                  (
                                    q4,
                                    adjust-eq-set (has_approval id)
                                        (λ y. record y { decision = some d }) h.calls i c at g,
                                  )
                                  (both_ok (
                                    settled-StandsFor resolved i _ c c' g
                                      (record {
                                        requested = sees.requested;
                                        approval = sees.approval;
                                        decision = rw here;
                                        result = sees.result;
                                        orderly = λ no. ground (arith, asked, no);
                                      })
                                      refl refl (ground arith)))))))

    pub resolve_approval-refines :
        (compat : ReplayCompatibility) (t : TurnId) (m : Envelope V) (id : String)
        (d : ApprovalDecision)
        → get_elem? events index ≡ some (approval_resolved m t id d)
        → Both
            (StandsFor events)
            (resolve_approval compat events index s t id)
            (note_decision (index + 1) h compat t id d)
    unfolding resolve_approval note_decision
    resolve_approval-refines compat t m id d here = elim (Found-of (has_approval id) h.calls) [
      | missing a b ↦ rw (rel.by_approval id ∙ a, b) (both_err _)
      | found i c a b g y ↦
          let (x, gx, sees) = Pairs-get_elem? (Sees events) s.tool_calls h.calls i c rel.calls g in
          resolve_approval-known compat t m id d i x c here a b y g gx sees
    ]

    -- The call is known, at position `i`, and the recorded decision admits the result.
    record_result-known :
        (compat : ReplayCompatibility) (t : TurnId) (m : Envelope V) (r : ToolResult V) (i : ℕ)
        (x : ReplayedToolCallIndex) (c : CallHistory V)
        → get_elem? events index ≡ some (tool_result m t r)
        → find_index (has_id r.call_id) h.calls ≡ some i
        → find (has_id r.call_id) h.calls ≡ some c
        → get_elem? h.calls i ≡ some c
        → get_elem? s.tool_calls i ≡ some x
        → Sees events x c
        → Both
            (StandsFor events)
            (record_result compat events index s t r)
            (note_result (index + 1) h compat t r)
    unfolding record_result note_result
    record_result-known compat t m r i x c here at by g gx sees =
        let c' : CallHistory V = record c { result = some r } in
        rw (rel.by_id r.call_id ∙ at, by, gx, sees.requested)
          (split (not (c.turn == t)) (λ q. rw q (both_err _))
            λ q.
              rw (q, sees.result)
                (split (is_some c.result) (λ q2. rw q2 (both_err _))
                  λ q2.
                    rw (q2, sees.decision)
                      (rw (sees.approval, rel.format)
                        (elim (check_result-cases compat (index + 1) h.format c.approval c.decision
                          r) [
                            | inr (q3, bad) ↦ rw bad (both_err _)
                            | inl (format, good) ↦
                                rw
                                  (
                                    good,
                                    adjust-eq-set (has_id r.call_id)
                                        (λ y. record y { result = some r }) h.calls i c at g,
                                  )
                                  (both_ok (
                                    settled-StandsFor format i _ c c' g
                                      (record {
                                        requested = sees.requested;
                                        approval = sees.approval;
                                        decision = sees.decision;
                                        result = rw here;
                                        orderly = sees.orderly;
                                      })
                                      refl refl (ground arith)))
                          ]))))

    pub record_result-refines :
        (compat : ReplayCompatibility) (t : TurnId) (m : Envelope V) (r : ToolResult V)
        → get_elem? events index ≡ some (tool_result m t r)
        → Both
            (StandsFor events)
            (record_result compat events index s t r)
            (note_result (index + 1) h compat t r)
    unfolding record_result note_result
    record_result-refines compat t m r here = elim (Found-of (has_id r.call_id) h.calls) [
      | missing a b ↦ rw (rel.by_id r.call_id ∙ a, b) (both_err _)
      | found i c a b g y ↦
          let (x, gx, sees) = Pairs-get_elem? (Sees events) s.tool_calls h.calls i c rel.calls g in
          record_result-known compat t m r i x c here a b g gx sees
    ]
