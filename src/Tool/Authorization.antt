-- ===== src/Tool/Authorization.antt =====
-- crates/tool-runtime/src/execution.rs and registry.rs: which prepared calls reach a handler, and what
-- comes back.
use young_agent.Prelude.{◌≡◌, refl, ap, ◌⊎◌, inl, inr, ◌==◌, nat_eq, string_eq, eq_iff, split}
use young_agent.Tool.Call.{ToolCallId, ToolCall, ToolError}
use young_agent.Tool.Prepared.{
  ToolExecutionAuthorization, not_required, approval_granted, ToolExecutionDisposition,
  ToolDispatcherIdentity, PreparedToolCall, failed, into_authorized_call, authorized,
}

granted_ids : {a b : ToolCallId} → approval_granted a ≡ approval_granted b → a ≡ b
granted_ids h = cc h

module _ {V : Type 0} where
  -- The decision that a disposition needs.
  abbrev pub Grants : ToolExecutionDisposition → ToolCall V → ToolExecutionAuthorization → Type 0
  Grants ToolExecutionDisposition.ready call authorization = Unit
  Grants (ToolExecutionDisposition.requires_approval reason) call authorization =
      authorization ≡ approval_granted call.id
  Grants (ToolExecutionDisposition.reject error) call authorization = ⊥

  -- The plan was made by this dispatcher, and nothing speaks against its call.
  abbrev pub MayRun :
      PreparedToolCall V → ToolDispatcherIdentity → ToolExecutionAuthorization → Type 0
  MayRun p identity authorization =
      (p.dispatcher_identity ≡ identity) × Grants p.disposition p.call authorization

  authorized-cases :
      (d : ToolExecutionDisposition) (call : ToolCall V)
      (authorization : ToolExecutionAuthorization)
      → (Grants d call authorization × (authorized d call authorization ≡ inr call))
        ⊎ ((Grants d call authorization → ⊥)
            × (error : ToolError) × (authorized d call authorization ≡ inl (failed error)))
  authorized-cases ToolExecutionDisposition.ready call authorization = inl (tt, refl)
  authorized-cases (ToolExecutionDisposition.reject error) call authorization =
      inr ((λ m. m), error, refl)
  authorized-cases (ToolExecutionDisposition.requires_approval reason) call not_required =
      inr ((λ m. cc m), _, refl)
  authorized-cases (ToolExecutionDisposition.requires_approval reason) call (approval_granted id) =
      split (id == call.id) (λ q. rw q (inl (ap approval_granted ((eq_iff id call.id).0 q), refl)))
        λ q. rw q (inr ((λ m. cc (q, (eq_iff id call.id).1 (granted_ids m))), _, refl))

  -- Either the call may run and is handed out, or it may not and there is an error.
  pub into_authorized_call-cases :
      (p : PreparedToolCall V) (identity : ToolDispatcherIdentity)
      (authorization : ToolExecutionAuthorization)
      → (MayRun p identity authorization
          × (into_authorized_call p identity authorization ≡ inr p.call))
        ⊎ ((MayRun p identity authorization → ⊥)
            × (error : ToolError) × (into_authorized_call p identity authorization
                ≡ inl (failed error)))
  unfolding into_authorized_call
  into_authorized_call-cases p identity authorization =
      split (p.dispatcher_identity == identity)
        (λ q. elim (authorized-cases p.disposition p.call authorization) [
          | inl (grants, runs) ↦
              rw q (inl (((nat_eq.beq_iff p.dispatcher_identity identity).0 q, grants), runs))
          | inr (bars, error, fails) ↦ rw q (inr ((λ m. bars m.1), error, fails))
        ])
        λ q.
          rw q (inr ((λ m. cc (q, (nat_eq.beq_iff p.dispatcher_identity identity).1 m.0)), _, refl))
