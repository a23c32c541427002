-- ===== src/Tool/Registry.antt =====
-- crates/tool-runtime/src/registry.rs: definitions, registration and dispatch. `is_object` stands for
-- `Value::is_object`. A handler is code of a capability: it reads and changes a world `W`, in which
-- the cancellation flag stands too.
use young_agent.Prelude.{
  String, Bool, false, not, Option, none, some, List, [], Outcome, ok, err, panic, inl, inr,
  reject_if, ◌>>◌, string_eq, is_some, lookup, put,
}
use young_agent.Prelude.Text.{is_blank, push_str}
use young_agent.Tool.Call.{ToolCall, ToolResult, ToolOutput, ToolError}
use young_agent.Tool.Reason.{bound_approval_reason}
use young_agent.Tool.Prepared.{
  ToolExecutionAuthorization, ToolCallPolicy, ToolDispatcherIdentity, PreparedToolCall, tool_error,
  failed, ready_call, requiring_approval, rejected, classified, into_authorized_call,
  normalize_dispatcher_output,
}

pub record CapabilityRef : Type 0 where
  pub id : String
  pub version : String

pub data ToolApprovalPolicy : Type 0 where
  always_allow : ToolApprovalPolicy
  requires_approval : String → ToolApprovalPolicy
  call_dependent : ToolApprovalPolicy
  always_reject : String → ToolApprovalPolicy

pub record McpCompatibility : Type 0 where
  pub server : String
  pub tool_name : String
  pub protocol_version : String

pub record ToolDefinition (V : Type 0) : Type 0 where
  pub name : String
  pub description : String
  pub input_schema : V
  pub output_schema : Option V
  pub capability : CapabilityRef
  pub approval_policy : ToolApprovalPolicy
  pub mcp : Option McpCompatibility

-- Its message.
abbrev pub ToolDefinitionError : Type 0
ToolDefinitionError = String

pub data ToolRegistrationError : Type 0 where
  invalid_definition : String → ToolDefinitionError → ToolRegistrationError
  duplicate_tool : String → ToolRegistrationError

abbrev pub Checked : Type 0
Checked = Outcome ToolDefinitionError (Unit {0})

unfoldable pub require_non_empty : String → String → Checked
unfolding is_blank
require_non_empty field value = reject_if (is_blank value) (push_str field " must not be empty")

unfoldable pub validate_policy : ToolApprovalPolicy → Checked
unfolding require_non_empty
validate_policy (ToolApprovalPolicy.requires_approval reason) =
    require_non_empty "approval policy reason" reason
validate_policy (ToolApprovalPolicy.always_reject reason) =
    require_non_empty "approval policy reason" reason
validate_policy _ = ok tt

unfoldable pub validate_mcp : Option McpCompatibility → Checked
unfolding require_non_empty
validate_mcp none = ok tt
validate_mcp (some mcp) = do
  require_non_empty "mcp.server" mcp.server
  require_non_empty "mcp.tool_name" mcp.tool_name
  require_non_empty "mcp.protocol_version" mcp.protocol_version

module _ {V : Type 0} (is_object : V → Bool) where
  abbrev pub is_bad_schema : Option V → Bool
  is_bad_schema none = false
  is_bad_schema (some schema) = not (is_object schema)

  -- `ToolDefinition::validate`
  unfoldable pub validate : ToolDefinition V → Checked
  unfolding require_non_empty validate_policy validate_mcp
  validate d = do
    require_non_empty "name" d.name
    require_non_empty "description" d.description
    require_non_empty "capability.id" d.capability.id
    require_non_empty "capability.version" d.capability.version
    reject_if (not (is_object d.input_schema)) "input_schema must be an object"
    reject_if (is_bad_schema d.output_schema) "output_schema must be an object"
    validate_policy d.approval_policy
    validate_mcp d.mcp

-- `ToolHandler`
pub record ToolHandler (W V : Type 0) : Type 0 where
  pub classify : W → ToolCall V → ToolCallPolicy
  pub execute : W → ToolCall V → ToolOutput V × W

pub record RegisteredTool (W V : Type 0) : Type 0 where
  pub definition : ToolDefinition V
  pub handler : ToolHandler W V

pub record ToolRuntime (W V : Type 0) : Type 0 where
  pub dispatcher_identity : ToolDispatcherIdentity
  pub tools : List (String × RegisteredTool W V)

-- `map_err` on a failed validation.
abbrev pub named : String → Checked → Outcome ToolRegistrationError (Unit {0})
named name (ok x) = ok x
named name (err source) = err (ToolRegistrationError.invalid_definition name source)
named name panic = panic

abbrev pub unknown_tool : String → ToolError
unknown_tool name =
    tool_error "unknown_tool" (push_str "tool '" (push_str name "' is not registered"))

module _ {W V : Type 0} where
  -- `ToolRuntime::default`, with a fresh identity.
  abbrev pub new : ToolDispatcherIdentity → ToolRuntime W V
  new identity = record { dispatcher_identity = identity; tools = [] }

  unfoldable pub register :
      (is_object : V → Bool)
      → ToolRuntime W V
      → ToolDefinition V
      → ToolHandler W V
      → Outcome ToolRegistrationError (ToolRuntime W V)
  unfolding validate
  register is_object runtime definition handler = do
    named definition.name (validate is_object definition)
    reject_if (is_some (lookup definition.name runtime.tools))
        (ToolRegistrationError.duplicate_tool definition.name)
    ok (record runtime {
      tools =
          put definition.name (record { definition = definition; handler = handler }) runtime.tools;
    })

  abbrev pub definition_of : Option (RegisteredTool W V) → Option (ToolDefinition V)
  definition_of none = none
  definition_of (some tool) = some tool.definition

  -- `ToolRuntime::lookup`
  abbrev pub lookup_definition : ToolRuntime W V → String → Option (ToolDefinition V)
  lookup_definition runtime name = definition_of (lookup name runtime.tools)

  -- The `match` of `prepare` on the approval policy of the tool.
  unfoldable pub plan_for :
      ToolDispatcherIdentity
      → W
      → ToolHandler W V
      → ToolCall V
      → ToolApprovalPolicy
      → PreparedToolCall V
  unfolding requiring_approval classified bound_approval_reason
  plan_for identity world handler call ToolApprovalPolicy.always_allow = ready_call identity call
  plan_for identity world handler call (ToolApprovalPolicy.requires_approval reason) =
      requiring_approval identity call reason
  plan_for identity world handler call ToolApprovalPolicy.call_dependent =
      classified identity call (handler.classify world call)
  plan_for identity world handler call (ToolApprovalPolicy.always_reject reason) =
      rejected identity call (tool_error "tool_rejected" (bound_approval_reason reason))

  unfoldable pub prepare : ToolRuntime W V → W → ToolCall V → PreparedToolCall V
  unfolding plan_for
  prepare runtime world call = elim (lookup call.tool_name runtime.tools) [
    | none ↦ rejected runtime.dispatcher_identity call (unknown_tool call.tool_name)
    | some tool ↦
        plan_for runtime.dispatcher_identity world tool.handler call tool.definition.approval_policy
  ]

  -- A call that was authorized goes to its handler.
  unfoldable pub run_handler : ToolRuntime W V → W → ToolCall V → ToolOutput V × W
  unfolding normalize_dispatcher_output
  run_handler runtime world call = elim (lookup call.tool_name runtime.tools) [
    | none ↦ (failed (unknown_tool call.tool_name), world)
    | some tool ↦
        let (output, after) = tool.handler.execute world call in
        (normalize_dispatcher_output output, after)
  ]

  unfoldable pub execute_prepared :
      ToolRuntime W V → W → PreparedToolCall V → ToolExecutionAuthorization → ToolOutput V × W
  unfolding into_authorized_call run_handler
  execute_prepared runtime world prepared authorization =
      elim (into_authorized_call prepared runtime.dispatcher_identity authorization) [
        | inl output ↦ (output, world)
        | inr call ↦ run_handler runtime world call
      ]

  unfoldable pub dispatch :
      ToolRuntime W V → W → ToolCall V → ToolExecutionAuthorization → ToolResult V × W
  unfolding prepare execute_prepared
  dispatch runtime world call authorization =
      let (output, after) =
        execute_prepared runtime world (prepare runtime world call) authorization in
      (record { call_id = call.id; output = output }, after)
