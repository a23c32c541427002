-- ===== src/Tool/Approval.antt =====
-- crates/tool-runtime/src/execution.rs and registry.rs: the approval of one prepared call.
use young_agent.Prelude.{
  String, false, ◌≡◌, refl, ap, subst, sym, ◌∙◌, inl, inr, none, some, nat_eq, string_eq, split,
  lookup, ◌≤◌, arith, Option-cases, string_refl,
}
use young_agent.Prelude.Text.{is_blank}
use young_agent.Tool.Call.{ToolCall}
use young_agent.Tool.Reason.{bound_approval_reason, max_serialized_bytes}
use young_agent.Tool.Reason.Json.{json_len}
use young_agent.Tool.Reason.Laws.{bound_approval_reason-fits, bound_approval_reason_twice}
use young_agent.Tool.Prepared.{
  not_required, approval_granted, ToolCallPolicy, ToolExecutionDisposition, ToolDispatcherIdentity,
  tool_error, failed, classified, classified_bounded, requiring_approval, reason_of,
  approval_reason, into_authorized_call,
}
use young_agent.Tool.Registry.{
  ToolRuntime, RegisteredTool, ToolHandler, ToolApprovalPolicy, plan_for, prepare, execute_prepared,
}
use young_agent.Tool.Handled.{HandledBy, run_handler-Handled}

some-injective : {A : Type 0} {x y : A} → some x ≡ some y → x ≡ y
some-injective h = cc h

-- The reason that is shown for approval fits the bound.
abbrev pub IsBounded : ToolExecutionDisposition → Type 0
IsBounded (ToolExecutionDisposition.requires_approval reason) =
    json_len reason ≤ max_serialized_bytes
IsBounded _ = Unit

-- The reason that is shown for approval says something.
abbrev pub Speaks : ToolExecutionDisposition → Type 0
Speaks (ToolExecutionDisposition.requires_approval reason) = is_blank reason ≡ false
Speaks _ = Unit

module _ {V : Type 0} (identity : ToolDispatcherIdentity) (call : ToolCall V) where
  requiring_approval-IsBounded :
      (reason : String) → IsBounded (requiring_approval identity call reason).disposition
  unfolding requiring_approval
  requiring_approval-IsBounded reason = (bound_approval_reason-fits reason).0

  classified_bounded-IsBounded :
      (policy : ToolCallPolicy) → IsBounded (classified_bounded identity call policy).disposition
  unfolding classified_bounded
  classified_bounded-IsBounded ToolCallPolicy.allow = tt
  classified_bounded-IsBounded (ToolCallPolicy.requires_approval reason) =
      split (is_blank reason) (λ q. rw q tt) λ q. rw q (requiring_approval-IsBounded reason)
  classified_bounded-IsBounded (ToolCallPolicy.reject reason) =
      split (is_blank reason) (λ q. rw q tt) (λ q. rw q tt)

  classified-IsBounded :
      (policy : ToolCallPolicy) → IsBounded (classified identity call policy).disposition
  unfolding classified
  classified-IsBounded ToolCallPolicy.allow = classified_bounded-IsBounded ToolCallPolicy.allow
  classified-IsBounded (ToolCallPolicy.requires_approval reason) =
      classified_bounded-IsBounded (ToolCallPolicy.requires_approval (bound_approval_reason reason))
  classified-IsBounded (ToolCallPolicy.reject reason) =
      classified_bounded-IsBounded (ToolCallPolicy.reject (bound_approval_reason reason))

  speaks :
      (d : ToolExecutionDisposition) (shown : String)
      → Speaks d
      → reason_of d ≡ some shown
      → is_blank shown ≡ false
  speaks ToolExecutionDisposition.ready shown h q = cc q
  speaks (ToolExecutionDisposition.reject error) shown h q = cc q
  speaks (ToolExecutionDisposition.requires_approval reason) shown h q =
      subst (λ s. is_blank s ≡ false) (some-injective q) h

  classified-Speaks :
      (policy : ToolCallPolicy) → Speaks (classified identity call policy).disposition
  unfolding classified classified_bounded requiring_approval
  classified-Speaks ToolCallPolicy.allow = tt
  classified-Speaks (ToolCallPolicy.requires_approval reason) =
      split (is_blank (bound_approval_reason reason)) (λ q. rw q tt)
        λ q. rw q (rw (bound_approval_reason_twice reason) q)
  classified-Speaks (ToolCallPolicy.reject reason) =
      split (is_blank (bound_approval_reason reason)) (λ q. rw q tt) (λ q. rw q tt)

  -- The reason that a handler's classification shows for approval has a character that is not white
  -- space, whatever the handler answers.
  pub classified_reason :
      (policy : ToolCallPolicy) (shown : String)
      → approval_reason (classified identity call policy) ≡ some shown
      → is_blank shown ≡ false
  unfolding classified
  classified_reason policy shown asks = speaks _ shown (classified-Speaks policy) asks

bounded :
    (d : ToolExecutionDisposition) (shown : String)
    → IsBounded d
    → reason_of d ≡ some shown
    → json_len shown ≤ max_serialized_bytes
bounded ToolExecutionDisposition.ready shown h q = cc q
bounded (ToolExecutionDisposition.reject error) shown h q = cc q
bounded (ToolExecutionDisposition.requires_approval reason) shown h q =
    subst (λ s. json_len s ≤ max_serialized_bytes) (some-injective q) h

asked :
    (d : ToolExecutionDisposition) (shown : String)
    → reason_of d ≡ some shown
    → d ≡ ToolExecutionDisposition.requires_approval shown
asked ToolExecutionDisposition.ready shown q = cc q
asked (ToolExecutionDisposition.reject error) shown q = cc q
asked (ToolExecutionDisposition.requires_approval reason) shown q =
    ap ToolExecutionDisposition.requires_approval (some-injective q)

module _ {W V : Type 0} where
  plan_for-IsBounded :
      (identity : ToolDispatcherIdentity) (world : W) (handler : ToolHandler W V)
      (call : ToolCall V) (policy : ToolApprovalPolicy)
      → IsBounded (plan_for identity world handler call policy).disposition
  unfolding plan_for
  plan_for-IsBounded identity world handler call ToolApprovalPolicy.always_allow = tt
  plan_for-IsBounded identity world handler call (ToolApprovalPolicy.requires_approval reason) =
      requiring_approval-IsBounded identity call reason
  plan_for-IsBounded identity world handler call ToolApprovalPolicy.call_dependent =
      classified-IsBounded identity call (handler.classify world call)
  plan_for-IsBounded identity world handler call (ToolApprovalPolicy.always_reject reason) = tt

  plan_for-call :
      (identity : ToolDispatcherIdentity) (world : W) (handler : ToolHandler W V)
      (call : ToolCall V) (policy : ToolApprovalPolicy)
      → (plan_for identity world handler call policy).call ≡ call
  unfolding plan_for requiring_approval classified classified_bounded
  plan_for-call identity world handler call policy = ground arith

  plan_for-identity :
      (identity : ToolDispatcherIdentity) (world : W) (handler : ToolHandler W V)
      (call : ToolCall V) (policy : ToolApprovalPolicy)
      → (plan_for identity world handler call policy).dispatcher_identity ≡ identity
  unfolding plan_for requiring_approval classified classified_bounded
  plan_for-identity identity world handler call policy = ground arith

  module _ (runtime : ToolRuntime W V) (before : W) (call : ToolCall V) where
    pub prepare-call : (prepare runtime before call).call ≡ call
    unfolding prepare
    prepare-call = elim (Option-cases (lookup call.tool_name runtime.tools)) [
      | inl q ↦ rw (q, prepare) refl
      | inr (tool, q) ↦ rw (q, prepare) (plan_for-call _ before tool.handler call _)
    ]

    prepare-identity :
        (prepare runtime before call).dispatcher_identity ≡ runtime.dispatcher_identity
    unfolding prepare
    prepare-identity = elim (Option-cases (lookup call.tool_name runtime.tools)) [
      | inl q ↦ rw (q, prepare) refl
      | inr (tool, q) ↦ rw (q, prepare) (plan_for-identity _ before tool.handler call _)
    ]

    prepare-IsBounded : IsBounded (prepare runtime before call).disposition
    unfolding prepare
    prepare-IsBounded = elim (Option-cases (lookup call.tool_name runtime.tools)) [
      | inl q ↦ rw (q, prepare) tt
      | inr (tool, q) ↦ rw (q, prepare) (plan_for-IsBounded _ before tool.handler call _)
    ]

    -- A plan that asks for approval is one of a registered tool.
    asks-registered :
        (reason : String)
        → approval_reason (prepare runtime before call) ≡ some reason
        → lookup call.tool_name runtime.tools ≡ none
        → ⊥
    unfolding prepare
    asks-registered reason asks q =
        let g : none ≡ some reason = sym (rw (q, prepare) refl) ∙ asks in cc

    -- If preparing a call asks for approval, the reason shown takes at most 8192 bytes as a JSON
    -- string; executing the plan without approval leaves the world as it is and fails with
    -- `approval_required` and that reason; and executing it with the approval of this call id executes
    -- the handler of the registered tool that the call names on exactly the call that was prepared, in
    -- the world of that time, leaves the world that it leaves and answers its output.
    pub approval_protocol :
        (world : W) (reason : String)
        → approval_reason (prepare runtime before call) ≡ some reason
        → (json_len reason ≤ max_serialized_bytes)
          × (execute_prepared runtime world (prepare runtime before call) not_required
              ≡ (failed (tool_error "approval_required" reason), world))
          × ((tool : RegisteredTool W V) × (lookup call.tool_name runtime.tools ≡ some tool)
              × HandledBy tool world call (
                  execute_prepared runtime world
                    (prepare runtime before call)
                    (approval_granted call.id)))
    unfolding execute_prepared into_authorized_call
    approval_protocol world reason asks =
        let same =
          (nat_eq.beq_iff runtime.dispatcher_identity runtime.dispatcher_identity).1 refl in
        let needs = asked (prepare runtime before call).disposition reason asks in
        (
          bounded _ reason prepare-IsBounded asks,
          rw (execute_prepared, into_authorized_call, prepare-identity, same, needs) refl,
          rw (execute_prepared, into_authorized_call, prepare-identity, same, needs, prepare-call)
              (rw (string_refl call.id) (elim (run_handler-Handled runtime world call) [
                | inl (missing, fails) ↦ absurd (asks-registered reason asks missing)
                | inr handled ↦ handled
              ])),
        )
