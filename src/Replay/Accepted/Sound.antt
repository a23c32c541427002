-- ===== src/Replay/Accepted/Sound.antt =====
-- Invariants of the history that strict replay builds.
use young_agent.Prelude.{
  String, true, false, ◌≡◌, List, [], Option, none, some, string_eq, map, All, any, contains,
  Distinct,
}
use young_agent.Tool.Call.{ToolCallId, ToolResult}
use young_agent.Agent.Event.{ApprovalRequest, ApprovalDecision, approve, deny, TerminalRunStatus}
use young_agent.Replay.Step.{is_denial, is_canonical_denial, is_closing}
use young_agent.Replay.Spec.{CallHistory, RunHistory, has_approval, open_calls}

module _ {V : Type 0} where
  -- The result of a call agrees with what was decided: a denied call has the canonical denial for
  -- its reason, any other call has no denial, and a call that waits has no result.
  abbrev pub Settled :
      Option (ApprovalRequest V) → Option ApprovalDecision → Option (ToolResult V) → Type 0
  Settled a d none = Unit
  Settled a (some (deny reason)) (some r) = is_canonical_denial reason r.output ≡ true
  Settled a (some approve) (some r) = is_denial r.output ≡ false
  Settled none none (some r) = is_denial r.output ≡ false
  Settled (some a) none (some r) = ⊥

  abbrev pub CallSettled : CallHistory V → Type 0
  CallSettled c = Settled c.approval c.decision c.result

  abbrev pub call_id : CallHistory V → ToolCallId
  call_id c = c.call.id

  abbrev pub request_id : ApprovalRequest V → String
  request_id r = r.id

  -- A run that completed or failed left no call open.
  abbrev pub IsClosed : Option TerminalRunStatus → List (CallHistory V) → Type 0
  IsClosed none calls = Unit
  IsClosed (some x) calls = is_closing x ≡ true → open_calls calls ≡ []

  pub record IsSound (h : RunHistory V) : Type 0 where
    pub settled : All CallSettled h.calls
    pub calls_distinct : Distinct (map call_id h.calls)
    pub requests_distinct : Distinct (map request_id h.requests)
    pub asked : (k : String) → contains (map request_id h.requests) k ≡ any (has_approval k) h.calls
    pub closed : IsClosed h.ending h.calls
