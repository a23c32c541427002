-- ===== src/Tests/ToolWitnesses.antt =====
-- The theorems on crates/tool-runtime at a registry with one tool, which requires approval and whose
-- handler counts its runs and answers with the reserved code.
use young_agent.Prelude.{
  ℕ, ◌+◌, ◌≤◌, String, Bool, false, ◌≡◌, refl, ◌⊎◌, none, some, [], ◌∷◌, ok, ◌==◌, nat_eq,
  string_eq, if◌then◌else◌, Distinct, eqb, arith, lookup,
}
use young_agent.Prelude.Text.{is_blank}
use young_agent.Tool.Call.{ToolError}
use young_agent.Tool.Reason.{bound_approval_reason, max_serialized_bytes}
use young_agent.Tool.Reason.Json.{json_len, json_string, json_content, json_character}
use young_agent.Tool.Reason.Laws.{IsCut, bound_approval_reason-fits, bound_approval_reason-keeps}
use young_agent.Tool.Prepared.{
  not_required, approval_granted, ToolCallPolicy, PreparedToolCall, tool_error, failed,
  approval_reason, classified, ToolExecutionDisposition,
}
use young_agent.Tool.Registry.{
  ToolDefinition, ToolHandler, ToolRuntime, ToolApprovalPolicy, validate, register, new,
  lookup_definition, RegisteredTool, prepare, execute_prepared,
}
use young_agent.Tool.Handled.{Handled, HandledBy}
use young_agent.Tool.Authorization.{MayRun}
use young_agent.Tool.Dispatch.{IsUndenied, execute_prepared-cases, execute_prepared-IsUndenied}
use young_agent.Tool.Approval.{classified_reason, approval_protocol}
use young_agent.Tool.Registration.{
  register-lookup, fresh_one, registered, registry_valid, fresh_many, fresh_many_apart,
}
use young_agent.Tests.Samples.{sample_call}

abbrev is_schema : ℕ → Bool
is_schema v = eqb v 1

abbrev sample_definition : ToolDefinition ℕ
sample_definition = record {
  name = "write";
  description = "writes a file";
  input_schema = 1;
  output_schema = none;
  capability = record { id = "files"; version = "1" };
  approval_policy = ToolApprovalPolicy.requires_approval "writes";
  mcp = none;
}

abbrev sample_handler : ToolHandler ℕ ℕ
sample_handler = record {
  classify = λ world call. ToolCallPolicy.allow;
  execute = λ world call. (failed (tool_error "approval_denied" "no"), world + 1);
}

abbrev sample_runtime : ToolRuntime ℕ ℕ
sample_runtime = record {
  dispatcher_identity = 1;
  tools = ("write", record { definition = sample_definition; handler = sample_handler }) ∷ [];
}

sample_registered : register is_schema (new 1) sample_definition sample_handler ≡ ok sample_runtime
unfolding register
sample_registered = refl

sample_asks : approval_reason (prepare sample_runtime 0 sample_call) ≡ some "writes"
unfolding prepare
sample_asks = refl

abbrev sample_plan : PreparedToolCall ℕ
sample_plan = record {
  dispatcher_identity = 1;
  call = sample_call;
  disposition = ToolExecutionDisposition.requires_approval "writes";
}

execute_prepared-cases_example :
    (MayRun sample_plan 1 (approval_granted "run-tool-001")
      × Handled sample_runtime 0 sample_call
          (execute_prepared sample_runtime 0 sample_plan (approval_granted "run-tool-001")))
    ⊎ ((MayRun sample_plan 1 (approval_granted "run-tool-001") → ⊥)
        × (error : ToolError) × (execute_prepared sample_runtime 0 sample_plan
              (approval_granted "run-tool-001")
            ≡ (failed error, 0)))
execute_prepared-cases_example =
    execute_prepared-cases sample_runtime 0 sample_plan (approval_granted "run-tool-001")

execute_prepared-IsUndenied_example :
    IsUndenied
      (execute_prepared sample_runtime 5
        (prepare sample_runtime 0 sample_call)
        (approval_granted "run-tool-001")).0
execute_prepared-IsUndenied_example =
    execute_prepared-IsUndenied sample_runtime 0 5 sample_call (approval_granted "run-tool-001")

approval_protocol_example :
    (json_len "writes" ≤ max_serialized_bytes)
    × (execute_prepared sample_runtime 5 (prepare sample_runtime 0 sample_call) not_required
        ≡ (failed (tool_error "approval_required" "writes"), 5))
    × ((tool : RegisteredTool ℕ ℕ) × (lookup "write" sample_runtime.tools ≡ some tool)
        × HandledBy tool 5 sample_call (
            execute_prepared sample_runtime 5
              (prepare sample_runtime 0 sample_call)
              (approval_granted "run-tool-001")))
approval_protocol_example = approval_protocol sample_runtime 0 sample_call 5 "writes" sample_asks

classified_asks :
    approval_reason (classified 1 sample_call (ToolCallPolicy.requires_approval "why")) ≡ some "why"
unfolding classified
classified_asks = refl

classified_reason_example : is_blank "why" ≡ false
classified_reason_example =
    classified_reason 1 sample_call (ToolCallPolicy.requires_approval "why") "why" classified_asks

bound_approval_reason-fits_example :
    (json_len (bound_approval_reason "a\nb") ≤ max_serialized_bytes)
    × IsCut "a\nb" (bound_approval_reason "a\nb")
bound_approval_reason-fits_example = bound_approval_reason-fits "a\nb"

short_reason : json_len "a\nb" ≤ max_serialized_bytes
unfolding json_string json_content json_character
short_reason = omega arith

bound_approval_reason-keeps_example : bound_approval_reason "a\nb" ≡ "a\nb"
bound_approval_reason-keeps_example = bound_approval_reason-keeps "a\nb" short_reason

register-lookup_example :
    (validate is_schema sample_definition ≡ ok tt)
    × (lookup_definition (new {W = ℕ} {V = ℕ} 1) "write" ≡ none)
    × ((name : String)
        → lookup_definition sample_runtime name ≡ (
            if name == "write"
            then some sample_definition
            else lookup_definition (new {W = ℕ} {V = ℕ} 1) name))
register-lookup_example =
    register-lookup is_schema (new 1) sample_runtime sample_definition sample_handler
      sample_registered

registry_valid_example :
    (sample_definition.name ≡ "write") × (validate is_schema sample_definition ≡ ok tt)
registry_valid_example =
    registry_valid is_schema "write" sample_definition
      (registered sample_definition sample_handler (fresh_one 1) sample_registered) refl

two_fresh : fresh_many {E = Unit {0}} 2 1 ≡ ok (1 ∷ 2 ∷ [])
unfolding fresh_many
two_fresh = refl

fresh_many_apart_example : Distinct {A = ℕ} (1 ∷ 2 ∷ [])
fresh_many_apart_example = fresh_many_apart 2 1 (1 ∷ 2 ∷ []) two_fresh
