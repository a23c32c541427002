-- ===== src/Replay/Accepted/Notes.antt =====
-- What one event notes of calls, approvals and the end, and the invariants of strict replay in
-- crates/event-store/src/replay.rs.
use young_agent.Prelude.{
  ℕ, String, false, not, ◌&&◌, ◌≡◌, refl, sym, ◌∙◌, List, [], ◌∷◌, ◌++◌, Option, none, some,
  is_some, is_empty, ok, Eq, ◌==◌, string_eq, map, All-set, All-append, find, get_elem?, set,
  adjust-eq-set, Found-of, missing, found, contains, Distinct-append, contains-append, map-set,
  any-find, any-set, any-set_same, any-append, Ensures, ensured, failing, Ensures-bind, split,
  none-of_is_some, arith,
}
use mathlib.Core.List.{map-append}
use young_agent.Tool.Call.{ToolCall, ToolResult, tool_call_beq}
use young_agent.Agent.Event.{
  TurnId, ApprovalRequest, ApprovalDecision, TerminalRunStatus, approve, deny,
}
use young_agent.Replay.Step.{
  ApprovalLogFormat, resolved, strict, check_result, is_closing, is_denial, is_canonical_denial,
}
use young_agent.Replay.Spec.{
  CallHistory, RunHistory, has_id, has_approval, open_calls, note_call, note_request, note_decision,
  note_result, note_ending,
}
use young_agent.Replay.Accepted.Sound.{IsSound, CallSettled, Settled, call_id, request_id}

module _ {V : Type 0} where
  -- Looking a call up by its id is looking its id up.
  has_id-contains :
      (id : String) (cs : List (CallHistory V))
      → is_some (find (has_id id) cs) ≡ contains (map call_id cs) id
  has_id-contains id [] = refl
  has_id-contains id (c ∷ cs) = ground (arith, has_id-contains id cs)

  -- Strict replay takes a result only if it agrees with the decision.
  check_result-Settled :
      (n : ℕ) (format : ApprovalLogFormat) (a : Option (ApprovalRequest V))
      (d : Option ApprovalDecision) (r : ToolResult V)
      → Ensures (λ f. Settled a d (some r)) (check_result strict n format a d r)
  unfolding check_result
  check_result-Settled n format (some a) none r = failing _
  check_result-Settled n format none none r =
      split (is_denial r.output) (λ q. rw q (failing _)) (λ q. rw q (ensured refl))
  check_result-Settled n format none (some approve) r =
      split (is_denial r.output) (λ q. rw q (failing _)) (λ q. rw q (ensured refl))
  check_result-Settled n format (some a) (some approve) r =
      split (is_denial r.output) (λ q. rw q (failing _)) (λ q. rw q (ensured refl))
  check_result-Settled n format none (some (deny why)) r =
      split (is_canonical_denial why r.output) (λ q. rw q (ensured refl)) (λ q. rw q (failing _))
  check_result-Settled n format (some a) (some (deny why)) r =
      split (is_canonical_denial why r.output) (λ q. rw q (ensured refl)) (λ q. rw q (failing _))

  module _ (n : ℕ) (h : RunHistory V) (sound : IsSound h) (live : h.ending ≡ none) where
    pub note_call-IsSound : (t : TurnId) (c : ToolCall V) → Ensures IsSound (note_call n h t c)
    unfolding note_call
    note_call-IsSound t c = rw (has_id-contains c.id h.calls) (
        split (contains (map call_id h.calls) c.id) (λ q. rw q (failing _))
          λ q. rw q (
            ensured (record {
              settled = All-append CallSettled h.calls _ sound.settled (tt, tt);
              calls_distinct =
                  rw map-append (Distinct-append (map call_id h.calls) c.id sound.calls_distinct q);
              requests_distinct = sound.requests_distinct;
              asked = λ k. rw any-append (ground (arith, sound.asked k));
              closed = rw live tt;
            })))

    -- The history of the call at position `i` changes; ids and requests do not.
    changed-IsSound :
        (format : ApprovalLogFormat) (i : ℕ) (c c' : CallHistory V)
        → get_elem? h.calls i ≡ some c
        → CallSettled c'
        → c'.call ≡ c.call
        → c'.approval ≡ c.approval
        → IsSound (record h { calls = set h.calls i c'; format = format })
    changed-IsSound format i c c' g new same_call same_approval = record {
      settled = All-set CallSettled h.calls i c' sound.settled new;
      calls_distinct = rw (map-set call_id h.calls i c c' g (rw same_call)) sound.calls_distinct;
      requests_distinct = sound.requests_distinct;
      asked = λ k.
          sound.asked k ∙ sym (any-set_same (has_approval k) h.calls i c c' g (rw same_approval));
      closed = rw live tt;
    }

    requested-IsSound :
        (r : ApprovalRequest V) (i : ℕ) (c : CallHistory V)
        → get_elem? h.calls i ≡ some c
        → c.result ≡ none
        → c.approval ≡ none
        → contains (map request_id h.requests) r.id ≡ false
        → IsSound (record h {
          calls = set h.calls i (record c { approval = some r });
          requests = h.requests ++ r ∷ [];
        })
    requested-IsSound r i c g unanswered plain fresh =
        let c' : CallHistory V = record c { approval = some r } in
        record {
          settled = All-set CallSettled h.calls i c' sound.settled (rw unanswered tt);
          calls_distinct = rw (map-set call_id h.calls i c c' g refl) sound.calls_distinct;
          requests_distinct =
              rw map-append
                (Distinct-append (map request_id h.requests) r.id sound.requests_distinct fresh);
          asked = λ k.
              rw
                (
                  map-append,
                  contains-append (map request_id h.requests) r.id k,
                  any-set (has_approval k) h.calls i c c' g (rw plain),
                )
                (ground (arith, sound.asked k));
          closed = rw live tt;
        }

    pub note_request-IsSound :
        ⦃e : Eq V⦄ (t : TurnId) (r : ApprovalRequest V) → Ensures IsSound (note_request n h t r)
    unfolding note_request
    note_request-IsSound t r = elim (Found-of (has_id r.call.id) h.calls) [
      | missing a b ↦ rw b (failing _)
      | found i c a b g y ↦ rw b (
          split (not (c.turn == t)) (λ q. rw q (failing _))
            λ q. rw q (
              split (not (tool_call_beq c.call r.call)) (λ q2. rw q2 (failing _))
                λ q2. rw q2 (
                  split (is_some c.result) (λ q3. rw q3 (failing _))
                    λ q3. rw q3 (
                      split (is_some c.approval) (λ q4. rw q4 (failing _))
                        λ q4.
                          rw (q4, any-find (has_approval r.id) h.calls, ← sound.asked r.id)
                            (split (contains (map request_id h.requests) r.id)
                              (λ q5. rw q5 (failing _))
                              λ q5.
                                rw
                                  (
                                    q5,
                                    adjust-eq-set (has_id r.call.id)
                                        (λ x. record x { approval = some r }) h.calls i c a g,
                                  )
                                  (ensured (
                                    requested-IsSound r i c g (none-of_is_some _ q3)
                                      (none-of_is_some _ q4) q5)))))))
    ]

    pub note_decision-IsSound :
        (t : TurnId) (id : String) (d : ApprovalDecision)
        → Ensures IsSound (note_decision n h strict t id d)
    unfolding note_decision
    note_decision-IsSound t id d = elim (Found-of (has_approval id) h.calls) [
      | missing a b ↦ rw b (failing _)
      | found i c a b g y ↦
          let c' : CallHistory V = record c { decision = some d } in
          rw b (
            split (not (c.turn == t)) (λ q. rw q (failing _))
              λ q. rw q (
                split (is_some c.decision) (λ q2. rw q2 (failing _))
                  λ q2. rw q2 (
                    split (is_some c.result) (λ q3. rw q3 (failing _))
                      λ q3.
                        rw
                          (
                            q3,
                            adjust-eq-set (has_approval id) (λ x. record x { decision = some d })
                                h.calls i c a g,
                          )
                          (ensured (
                            changed-IsSound resolved i c c' g (rw (none-of_is_some c.result q3) tt)
                              refl refl)))))
    ]

    pub note_result-IsSound :
        (t : TurnId) (r : ToolResult V) → Ensures IsSound (note_result n h strict t r)
    unfolding note_result
    note_result-IsSound t r = elim (Found-of (has_id r.call_id) h.calls) [
      | missing a b ↦ rw b (failing _)
      | found i c a b g y ↦
          let c' : CallHistory V = record c { result = some r } in
          rw b (
            split (not (c.turn == t)) (λ q. rw q (failing _))
              λ q. rw q (
                split (is_some c.result) (λ q2. rw q2 (failing _))
                  λ q2.
                    rw
                      (
                        q2,
                        adjust-eq-set (has_id r.call_id) (λ x. record x { result = some r }) h.calls
                            i c a g,
                      )
                      (Ensures-bind
                        (λ format. ok (record h { calls = set h.calls i c'; format = format }))
                        (check_result-Settled n h.format c.approval c.decision r)
                        (λ format settled.
                          ensured (changed-IsSound format i c c' g settled refl refl)))))
    ]

    pub note_ending-IsSound : (x : TerminalRunStatus) → Ensures IsSound (note_ending n h x)
    unfolding note_ending
    note_ending-IsSound x =
        split (is_closing x && not (is_empty (open_calls h.calls))) (λ q. rw q (failing _))
          λ q. rw q (
            ensured (record {
              settled = sound.settled;
              calls_distinct = sound.calls_distinct;
              requests_distinct = sound.requests_distinct;
              asked = sound.asked;
              closed = λ closing. ground (arith, q, closing);
            }))
