-- ===== src/Tool/Dispatch.antt =====
-- crates/tool-runtime/src/registry.rs: what dispatch promises of handlers, approvals and outputs.
use young_agent.Prelude.{
  false, ◌≡◌, refl, subst, ◌⊎◌, inl, inr, ◌==◌, nat_eq, string_eq, split, lookup, Option-cases,
  if◌then◌else◌,
}
use young_agent.Prelude.Text.{is_blank}
use young_agent.Tool.Call.{ToolCall, ToolError, ToolOutput, success, failure}
use young_agent.Tool.Reason.{bound_approval_reason}
use young_agent.Tool.Prepared.{
  ToolExecutionAuthorization, ToolCallPolicy, ToolExecutionDisposition, ToolDispatcherIdentity,
  PreparedToolCall, tool_error, failed, classified, classified_bounded, requiring_approval,
  into_authorized_call, authorized, is_granted_for, normalize_dispatcher_output,
}
use young_agent.Tool.Registry.{
  ToolRuntime, ToolHandler, ToolApprovalPolicy, plan_for, prepare, run_handler, execute_prepared,
}
use young_agent.Tool.Handled.{Handled, run_handler-Handled}
use young_agent.Tool.Authorization.{MayRun, into_authorized_call-cases}

-- A plan that does not carry the reserved code.
abbrev pub PlanIsUndenied : ToolExecutionDisposition → Type 0
PlanIsUndenied (ToolExecutionDisposition.reject error) = (error.code == "approval_denied") ≡ false
PlanIsUndenied _ = Unit

inl-injective : {A B : Type 0} {x y : A} → ◌≡◌ {A = A ⊎ B} (inl x) (inl y) → x ≡ y
inl-injective h = cc h

sum-cases : {A B : Type 0} (s : A ⊎ B) → ((a : A) × (s ≡ inl a)) ⊎ ((b : B) × (s ≡ inr b))
sum-cases (inl a) = inl (a, refl)
sum-cases (inr b) = inr (b, refl)

module _ {V : Type 0} where
  -- An output whose code is not the one reserved for denials.
  abbrev pub IsUndenied : ToolOutput V → Type 0
  IsUndenied (success content metadata extensions) = Unit
  IsUndenied (failure error extensions) = (error.code == "approval_denied") ≡ false

  normalize-IsUndenied : (output : ToolOutput V) → IsUndenied (normalize_dispatcher_output output)
  unfolding normalize_dispatcher_output
  normalize-IsUndenied (success content metadata extensions) = tt
  normalize-IsUndenied (failure error extensions) =
      split (error.code == "approval_denied") (λ q. rw q refl) (λ q. rw q q)

  classified_bounded-IsUndenied :
      (identity : ToolDispatcherIdentity) (call : ToolCall V) (policy : ToolCallPolicy)
      → PlanIsUndenied (classified_bounded identity call policy).disposition
  unfolding classified_bounded
  classified_bounded-IsUndenied identity call ToolCallPolicy.allow = tt
  classified_bounded-IsUndenied identity call (ToolCallPolicy.requires_approval reason) =
      split (is_blank reason) (λ q. rw q refl) (λ q. rw q tt)
  classified_bounded-IsUndenied identity call (ToolCallPolicy.reject reason) =
      split (is_blank reason) (λ q. rw q refl) (λ q. rw q refl)

  classified-IsUndenied :
      (identity : ToolDispatcherIdentity) (call : ToolCall V) (policy : ToolCallPolicy)
      → PlanIsUndenied (classified identity call policy).disposition
  unfolding classified
  classified-IsUndenied identity call ToolCallPolicy.allow =
      classified_bounded-IsUndenied identity call ToolCallPolicy.allow
  classified-IsUndenied identity call (ToolCallPolicy.requires_approval reason) =
      classified_bounded-IsUndenied identity call
        (ToolCallPolicy.requires_approval (bound_approval_reason reason))
  classified-IsUndenied identity call (ToolCallPolicy.reject reason) =
      classified_bounded-IsUndenied identity call
        (ToolCallPolicy.reject (bound_approval_reason reason))

  authorized-IsUndenied :
      (d : ToolExecutionDisposition) (call : ToolCall V)
      (authorization : ToolExecutionAuthorization) (output : ToolOutput V)
      → PlanIsUndenied d
      → authorized d call authorization ≡ inl output
      → IsUndenied output
  authorized-IsUndenied ToolExecutionDisposition.ready call authorization output h q = cc q
  authorized-IsUndenied (ToolExecutionDisposition.reject error) call authorization output h q =
      subst IsUndenied (inl-injective q) h
  authorized-IsUndenied (ToolExecutionDisposition.requires_approval reason) call authorization
        output h q =
      split (is_granted_for authorization call) (λ g. cc (q, g))
        λ g.
          subst IsUndenied
            (inl-injective (
              subst
                (λ b.
                  (if b then inr call else inl (failed (tool_error "approval_required" reason)))
                  ≡ inl output)
                g q))
            refl

module _ {W V : Type 0} where
  -- Executing a prepared call, in any registry and world: if the plan was made by this dispatcher and
  -- its disposition is ready, or it requires approval and the authorization is the approval of this
  -- very call, then the handler of the tool that the call names is executed on the call, the world is
  -- the one that it leaves and its output is answered, or no tool has that name and the call fails in
  -- an unchanged world; otherwise the world stays as it is and the output is a failure.
  pub execute_prepared-cases :
      (runtime : ToolRuntime W V) (world : W) (p : PreparedToolCall V)
      (authorization : ToolExecutionAuthorization)
      → (MayRun p runtime.dispatcher_identity authorization
          × Handled runtime world p.call (execute_prepared runtime world p authorization))
        ⊎ ((MayRun p runtime.dispatcher_identity authorization → ⊥)
            × (error : ToolError) × (execute_prepared runtime world p authorization
                ≡ (failed error, world)))
  unfolding execute_prepared
  execute_prepared-cases runtime world p authorization =
      elim (into_authorized_call-cases p runtime.dispatcher_identity authorization) [
        | inl (may, runs) ↦
            inl (may, rw (runs, execute_prepared) (run_handler-Handled runtime world p.call))
        | inr (bars, error, fails) ↦ inr (bars, error, rw (fails, execute_prepared) refl)
      ]

  run_handler-IsUndenied :
      (runtime : ToolRuntime W V) (world : W) (call : ToolCall V)
      → IsUndenied (run_handler runtime world call).0
  unfolding run_handler
  run_handler-IsUndenied runtime world call =
      elim (Option-cases (lookup call.tool_name runtime.tools)) [
        | inl q ↦ rw (q, run_handler) refl
        | inr (tool, q) ↦
            rw (q, run_handler) (normalize-IsUndenied (tool.handler.execute world call).0)
      ]

  plan_for-IsUndenied :
      (identity : ToolDispatcherIdentity) (world : W) (handler : ToolHandler W V)
      (call : ToolCall V) (policy : ToolApprovalPolicy)
      → PlanIsUndenied (plan_for identity world handler call policy).disposition
  unfolding plan_for requiring_approval
  plan_for-IsUndenied identity world handler call ToolApprovalPolicy.always_allow = tt
  plan_for-IsUndenied identity world handler call (ToolApprovalPolicy.requires_approval reason) = tt
  plan_for-IsUndenied identity world handler call ToolApprovalPolicy.call_dependent =
      classified-IsUndenied identity call (handler.classify world call)
  plan_for-IsUndenied identity world handler call (ToolApprovalPolicy.always_reject reason) = refl

  prepare-IsUndenied :
      (runtime : ToolRuntime W V) (world : W) (call : ToolCall V)
      → PlanIsUndenied (prepare runtime world call).disposition
  unfolding prepare
  prepare-IsUndenied runtime world call =
      elim (Option-cases (lookup call.tool_name runtime.tools)) [
        | inl q ↦ rw (q, prepare) refl
        | inr (tool, q) ↦ rw (q, prepare) (plan_for-IsUndenied _ world tool.handler call _)
      ]

  -- The output of a prepared call never carries the code `approval_denied`, whatever its handler
  -- returns, whatever the authorization is, and in whatever world the call is executed.
  pub execute_prepared-IsUndenied :
      (runtime : ToolRuntime W V) (before world : W) (call : ToolCall V)
      (authorization : ToolExecutionAuthorization)
      → IsUndenied (execute_prepared runtime world (prepare runtime before call) authorization).0
  unfolding execute_prepared into_authorized_call
  execute_prepared-IsUndenied runtime before world call authorization =
      let p : PreparedToolCall V = prepare runtime before call in
      split (p.dispatcher_identity == runtime.dispatcher_identity)
        (λ q. elim (sum-cases (authorized p.disposition p.call authorization)) [
          | inl (output, fails) ↦
              rw (execute_prepared, into_authorized_call, q, fails)
                (authorized-IsUndenied p.disposition p.call authorization output
                  (prepare-IsUndenied runtime before call) fails)
          | inr (c, runs) ↦
              rw (execute_prepared, into_authorized_call, q, runs)
                (run_handler-IsUndenied runtime world c)
        ])
        λ q. rw (execute_prepared, into_authorized_call, q) refl
