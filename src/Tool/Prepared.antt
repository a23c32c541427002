-- ===== src/Tool/Prepared.antt =====
-- crates/tool-runtime/src/execution.rs: what one lookup and policy classification leave of a call,
-- and what may become of it. A dispatcher identity is its `u64`.
use young_agent.Prelude.{
  ℕ, ◌+◌, String, Bool, false, Option, none, some, [], Outcome, ok, ◌⊎◌, inl, inr, expect, ◌>>=◌,
  ◌==◌, string_eq, nat_eq, not, ltb, if◌then◌else◌,
}
use young_agent.Prelude.Text.{is_blank}
use young_agent.Tool.Call.{ToolCallId, ToolCall, ToolError, ToolOutput, success, failure}
use young_agent.Tool.Reason.{bound_approval_reason}

pub data ToolExecutionAuthorization : Type 0 where
  not_required : ToolExecutionAuthorization
  approval_granted : ToolCallId → ToolExecutionAuthorization

pub data ToolCallPolicy : Type 0 where
  allow : ToolCallPolicy
  requires_approval : String → ToolCallPolicy
  reject : String → ToolCallPolicy

pub data ToolExecutionDisposition : Type 0 where
  ready : ToolExecutionDisposition
  requires_approval : String → ToolExecutionDisposition
  reject : ToolError → ToolExecutionDisposition

abbrev pub ToolDispatcherIdentity : Type 0
ToolDispatcherIdentity = ℕ

pub record PreparedToolCall (V : Type 0) : Type 0 where
  pub dispatcher_identity : ToolDispatcherIdentity
  pub call : ToolCall V
  pub disposition : ToolExecutionDisposition

abbrev pub u64_max : ℕ
u64_max = 18446744073709551615

-- One `fetch_update` of the counter: its answer, and the counter after it.
unfoldable pub next_dispatcher_identity : ℕ → Option ℕ × ℕ
next_dispatcher_identity identity =
    if identity == 0
    then (none, identity)
    else if ltb identity u64_max
    then (some identity, identity + 1)
    else (none, identity)

-- `ToolDispatcherIdentity::fresh`, with the counter after it.
unfoldable pub fresh : {E : Type 0} → ℕ → Outcome E (ToolDispatcherIdentity × ℕ)
unfolding next_dispatcher_identity
fresh counter =
    let (identity, next) = next_dispatcher_identity counter in expect identity >>= λ i. ok (i, next)

-- `ToolExecutionAuthorization::is_granted_for`
abbrev pub is_granted_for : {V : Type 0} → ToolExecutionAuthorization → ToolCall V → Bool
is_granted_for (approval_granted call_id) call = call_id == call.id
is_granted_for not_required call = false

abbrev pub tool_error : String → String → ToolError
tool_error code message = record { code = code; message = message; retryable = false }

module _ {V : Type 0} (identity : ToolDispatcherIdentity) (call : ToolCall V) where
  abbrev pub ready_call : PreparedToolCall V
  ready_call = record {
    dispatcher_identity = identity;
    call = call;
    disposition = ToolExecutionDisposition.ready;
  }

  unfoldable pub requiring_approval : String → PreparedToolCall V
  unfolding bound_approval_reason
  requiring_approval reason = record {
    dispatcher_identity = identity;
    call = call;
    disposition = ToolExecutionDisposition.requires_approval (bound_approval_reason reason);
  }

  abbrev pub rejected : ToolError → PreparedToolCall V
  rejected error = record {
    dispatcher_identity = identity;
    call = call;
    disposition = ToolExecutionDisposition.reject error;
  }

  abbrev pub invalid_policy : PreparedToolCall V
  invalid_policy =
      rejected (tool_error "invalid_tool_policy" "call-dependent policy reason must not be empty")

  -- The second `match` of `classified`, on a policy whose reason has been bounded.
  unfoldable pub classified_bounded : ToolCallPolicy → PreparedToolCall V
  unfolding requiring_approval is_blank
  classified_bounded ToolCallPolicy.allow = ready_call
  classified_bounded (ToolCallPolicy.requires_approval reason) =
      if is_blank reason then invalid_policy else requiring_approval reason
  classified_bounded (ToolCallPolicy.reject reason) =
      if is_blank reason then invalid_policy else rejected (tool_error "tool_rejected" reason)

  unfoldable pub classified : ToolCallPolicy → PreparedToolCall V
  unfolding classified_bounded bound_approval_reason
  classified ToolCallPolicy.allow = classified_bounded ToolCallPolicy.allow
  classified (ToolCallPolicy.requires_approval reason) =
      classified_bounded (ToolCallPolicy.requires_approval (bound_approval_reason reason))
  classified (ToolCallPolicy.reject reason) =
      classified_bounded (ToolCallPolicy.reject (bound_approval_reason reason))

abbrev pub reason_of : ToolExecutionDisposition → Option String
reason_of (ToolExecutionDisposition.requires_approval reason) = some reason
reason_of _ = none

module _ {V : Type 0} where
  -- `PreparedToolCall::approval_reason`
  abbrev pub approval_reason : PreparedToolCall V → Option String
  approval_reason p = reason_of p.disposition

  abbrev pub failed : ToolError → ToolOutput V
  failed error = failure error []

  abbrev pub wrong_dispatcher : ToolOutput V
  wrong_dispatcher = failed (
      tool_error "invalid_prepared_tool_call"
        "prepared tool call belongs to a different dispatcher")

  -- The `match` of `into_authorized_call` on the disposition. `Err` is on the left.
  abbrev pub authorized :
      ToolExecutionDisposition → ToolCall V → ToolExecutionAuthorization → ToolOutput V ⊎ ToolCall V
  authorized ToolExecutionDisposition.ready call authorization = inr call
  authorized (ToolExecutionDisposition.requires_approval reason) call authorization =
      if is_granted_for authorization call
      then inr call
      else inl (failed (tool_error "approval_required" reason))
  authorized (ToolExecutionDisposition.reject error) call authorization = inl (failed error)

  unfoldable pub into_authorized_call :
      PreparedToolCall V
      → ToolDispatcherIdentity
      → ToolExecutionAuthorization
      → ToolOutput V ⊎ ToolCall V
  into_authorized_call p identity authorization =
      if not (p.dispatcher_identity == identity)
      then inl wrong_dispatcher
      else authorized p.disposition p.call authorization

  unfoldable pub normalize_dispatcher_output : ToolOutput V → ToolOutput V
  normalize_dispatcher_output (failure error extensions) =
      if error.code == "approval_denied"
      then failed (
          tool_error "reserved_tool_error_code"
            "tool dispatcher returned reserved error code 'approval_denied'")
      else failure error extensions
  normalize_dispatcher_output (success content metadata extensions) =
      success content metadata extensions
