-- ===== src/Replay/Refine/Calls.antt =====
-- `ToolCallRequested` and `ApprovalRequested` in crates/event-store/src/replay.rs: the fold and the
-- history step by step.
use young_agent.Prelude.{
  ℕ, zero, suc, ◌+◌, false, not, ◌≡◌, refl, sym, ◌∙◌, List, [], ◌∷◌, ◌++◌, none, some, is_some,
  length, get_elem?, set, ok, Eq, ◌==◌, nat_eq, string_eq, insert, lookup, put, lookup-put,
  find_index, find, adjust, Both, both_ok, both_err, split, reject_if, ◌>>◌, Found-of, missing,
  found, Pairs-get_elem?, Pairs-set, Pairs-append, Pairs-length, adjust-eq-set, find_index-set_same,
  find_index-set_new, find_index-append, Bool-cases, none-of_is_some, inl, inr, arith, eq_iff,
}
use young_agent.Tool.Call.{ToolCall, tool_call_beq}
use young_agent.Model.Stream.{ModelToolCallId}
use young_agent.Agent.Event.{
  AgentEvent, ApprovalRequest, TurnId, tool_call_requested, approval_requested, Envelope, RunStatus,
}
use young_agent.Replay.Timeline.{ReplayedToolCallIndex, ReplayError}
use young_agent.Replay.Step.{Fold, request_tool_call, request_approval}
use young_agent.Replay.Spec.{
  CallHistory, RunHistory, has_id, has_approval, is_pending, note_call, note_request,
}
use young_agent.Replay.Refine.Relation.{Sees, StandsFor, pending_at}
use young_agent.Replay.Refine.Pending.{pending-insert, is_empty-insert}

module _ {V : Type 0} where
  -- A new call is not pending.
  pending_at-append :
      (xs : List (CallHistory V)) (c : CallHistory V) (j : ℕ)
      → is_pending c ≡ false
      → pending_at (get_elem? (xs ++ c ∷ []) j) ≡ pending_at (get_elem? xs j)
  pending_at-append [] c zero p = p
  pending_at-append [] c (suc j) p = refl
  pending_at-append (x ∷ xs) c zero p = refl
  pending_at-append (x ∷ xs) c (suc j) p = pending_at-append xs c j p

module _ {V : Type 0} (events : List (AgentEvent V)) (index : ℕ) (s : Fold) (h : RunHistory V) where
  request_tool_call-StandsFor :
      (t : TurnId) (m : Envelope V) (i : ModelToolCallId) (c : ToolCall V)
      → StandsFor events s h
      → get_elem? events index ≡ some (tool_call_requested m t i c)
      → find_index (has_id c.id) h.calls ≡ none
      → StandsFor events
          (record s {
            tool_call_indexes = put c.id (length s.tool_calls) s.tool_call_indexes;
            tool_calls =
                s.tool_calls
                ++ (record {
                  requested_event = index;
                  approval_event = none;
                  approval_resolution_event = none;
                  result_event = none;
                })
                  ∷ [];
          })
          (record h {
            calls =
                h.calls
                ++ (record { turn = t; call = c; approval = none; decision = none; result = none })
                  ∷ [];
          })
  request_tool_call-StandsFor t m i c rel here fresh = record {
    calls = Pairs-append (Sees events) s.tool_calls h.calls _ _ rel.calls (record {
      requested = rw here;
      approval = refl;
      decision = refl;
      result = refl;
      orderly = λ _. refl;
    });
    by_id = λ id.
        rw
          (
            lookup-put id c.id (length s.tool_calls) s.tool_call_indexes,
            find_index-append (has_id id) h.calls,
            rel.by_id id,
          )
          (ground (
            arith,
            fresh,
            eq_iff id c.id,
            Pairs-length (Sees events) s.tool_calls h.calls rel.calls,
          ));
    by_approval = λ id. rw find_index-append (ground (arith, rel.by_approval id));
    pending = λ j. rel.pending j ∙ sym (pending_at-append h.calls _ j refl);
    status = rel.status;
    finished = rel.finished;
    format = rel.format;
    turns = rel.turns;
    active = rel.active;
    requests = rel.requests;
    errors = rel.errors;
  }

  pub request_tool_call-refines :
      (t : TurnId) (m : Envelope V) (i : ModelToolCallId) (c : ToolCall V)
      → StandsFor events s h
      → get_elem? events index ≡ some (tool_call_requested m t i c)
      → Both (StandsFor events) (request_tool_call index s c.id) (note_call (index + 1) h t c)
  unfolding request_tool_call note_call
  request_tool_call-refines t m i c rel here = elim (Found-of (has_id c.id) h.calls) [
    | missing a b ↦
        rw (rel.by_id c.id ∙ a, b) (both_ok (request_tool_call-StandsFor t m i c rel here a))
    | found j x a b g y ↦ rw (rel.by_id c.id ∙ a, b) (both_err _)
  ]

  request_approval-StandsFor :
      (t : TurnId) (m : Envelope V) (r : ApprovalRequest V) (i : ℕ) (x : ReplayedToolCallIndex)
      (c : CallHistory V)
      → StandsFor events s h
      → get_elem? events index ≡ some (approval_requested m t r)
      → h.ending ≡ none
      → find_index (has_id r.call.id) h.calls ≡ some i
      → get_elem? h.calls i ≡ some c
      → Sees events x c
      → c.result ≡ none
      → c.approval ≡ none
      → find_index (has_approval r.id) h.calls ≡ none
      → StandsFor events
          (record s {
            tool_calls = set s.tool_calls i (record x { approval_event = some index });
            approval_indexes = put r.id i s.approval_indexes;
            approvals = s.approvals ++ index ∷ [];
            pending_approvals = insert i s.pending_approvals;
            status = RunStatus.awaiting_approval;
          })
          (record h {
            calls = adjust (has_id r.call.id) (λ c'. record c' { approval = some r }) h.calls;
            requests = h.requests ++ r ∷ [];
          })
  request_approval-StandsFor t m r i x c rel here live at g sees unanswered plain fresh =
      let v : CallHistory V = record c { approval = some r } in
      rw (adjust-eq-set (has_id r.call.id) (λ c'. record c' { approval = some r }) h.calls i c at g)
        (record {
          calls = Pairs-set (Sees events) s.tool_calls h.calls i _ v rel.calls (record {
            requested = sees.requested;
            approval = rw here;
            decision = sees.decision;
            result = sees.result;
            orderly = λ no. cc;
          });
          by_id = λ id. rel.by_id id ∙ sym (find_index-set_same (has_id id) h.calls i c v g refl);
          by_approval = λ id.
              rw (lookup-put id r.id i s.approval_indexes, rel.by_approval id)
                (elim (Bool-cases (id == r.id)) [
                  | inl same ↦ rw same (
                      sym (
                        find_index-set_new (has_approval id) h.calls i c v g
                          (rw ((eq_iff id r.id).0 same) fresh) same))
                  | inr other ↦ rw other (
                      sym
                        (find_index-set_same (has_approval id) h.calls i c v g (rw (other, plain))))
                ]);
          pending =
              pending-insert s.pending_approvals h.calls i c v rel.pending g
                (rw (unanswered, sees.orderly (rw plain)));
          status = rw (live, is_empty-insert i s.pending_approvals);
          finished = rel.finished;
          format = rel.format;
          turns = rel.turns;
          active = rel.active;
          requests = Pairs-append _ s.approvals h.requests index r rel.requests (rw here);
          errors = rel.errors;
        })

module _ {V : Type 0} ⦃e : Eq V⦄ (events : List (AgentEvent V)) (index : ℕ) (s : Fold)
    (h : RunHistory V) where
  -- The last guard: the id of the approval is new.
  request_approval-last :
      (t : TurnId) (m : Envelope V) (r : ApprovalRequest V) (i : ℕ) (x : ReplayedToolCallIndex)
      (c : CallHistory V)
      → StandsFor events s h
      → get_elem? events index ≡ some (approval_requested m t r)
      → h.ending ≡ none
      → find_index (has_id r.call.id) h.calls ≡ some i
      → get_elem? h.calls i ≡ some c
      → Sees events x c
      → c.result ≡ none
      → c.approval ≡ none
      → Both
          (StandsFor events)
          (reject_if
              (is_some (lookup r.id s.approval_indexes))
              (ReplayError.duplicate_approval_id (index + 1) r.id)
            >> ok (record s {
              tool_calls = set s.tool_calls i (record x { approval_event = some index });
              approval_indexes = put r.id i s.approval_indexes;
              approvals = s.approvals ++ index ∷ [];
              pending_approvals = insert i s.pending_approvals;
              status = RunStatus.awaiting_approval;
            }))
          (reject_if
              (is_some (find (has_approval r.id) h.calls))
              (ReplayError.duplicate_approval_id (index + 1) r.id)
            >> ok (record h {
              calls = adjust (has_id r.call.id) (λ c'. record c' { approval = some r }) h.calls;
              requests = h.requests ++ r ∷ [];
            }))
  request_approval-last t m r i x c rel here live at g sees unanswered plain =
      elim (Found-of (has_approval r.id) h.calls) [
        | found j y a b g' z ↦ rw (rel.by_approval r.id ∙ a, b) (both_err _)
        | missing a b ↦
            rw (rel.by_approval r.id ∙ a, b)
              (both_ok (
                request_approval-StandsFor events index s h t m r i x c rel here live at g sees
                  unanswered plain a))
      ]

  -- The call of the request is known, at position `i`.
  request_approval-known :
      (t : TurnId) (m : Envelope V) (r : ApprovalRequest V) (i : ℕ) (x : ReplayedToolCallIndex)
      (c : CallHistory V)
      → StandsFor events s h
      → get_elem? events index ≡ some (approval_requested m t r)
      → h.ending ≡ none
      → find_index (has_id r.call.id) h.calls ≡ some i
      → find (has_id r.call.id) h.calls ≡ some c
      → get_elem? h.calls i ≡ some c
      → get_elem? s.tool_calls i ≡ some x
      → Sees events x c
      → Both
          (StandsFor events)
          (request_approval events index s t r)
          (note_request (index + 1) h t r)
  unfolding request_approval note_request
  request_approval-known t m r i x c rel here live at by g gx sees =
      rw (rel.by_id r.call.id ∙ at, by, gx, sees.requested)
        (split (not (c.turn == t)) (λ q. rw q (both_err _))
          λ q.
            rw (q, sees.result)
              (split (not (tool_call_beq c.call r.call)) (λ q2. rw q2 (both_err _))
                λ q2. rw q2 (
                  split (is_some c.result) (λ q3. rw q3 (both_err _))
                    λ unanswered.
                      rw (unanswered, sees.approval)
                        (split (is_some c.approval) (λ q4. rw q4 (both_err _))
                          λ plain. rw plain (
                            request_approval-last t m r i x c rel here live at g sees
                              (none-of_is_some _ unanswered) (none-of_is_some _ plain))))))

  pub request_approval-refines :
      (t : TurnId) (m : Envelope V) (r : ApprovalRequest V)
      → StandsFor events s h
      → get_elem? events index ≡ some (approval_requested m t r)
      → h.ending ≡ none
      → Both
          (StandsFor events)
          (request_approval events index s t r)
          (note_request (index + 1) h t r)
  unfolding request_approval note_request
  request_approval-refines t m r rel here live = elim (Found-of (has_id r.call.id) h.calls) [
    | missing a b ↦ rw (rel.by_id r.call.id ∙ a, b) (both_err _)
    | found i c a b g y ↦
        let (x, gx, sees) = Pairs-get_elem? (Sees events) s.tool_calls h.calls i c rel.calls g in
        request_approval-known t m r i x c rel here live a b g gx sees
  ]
