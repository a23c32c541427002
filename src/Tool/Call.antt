-- ===== src/Tool/Call.antt =====
-- crates/tool-runtime/src/execution.rs: the data of tool calls and their results. `V` stands for
-- `serde_json::Value`, and an id newtype is the text that it wraps.
use young_agent.Prelude.{
  String, Bool, true, List, ◌≡◌, ◌↔◌, ◌&&◌, arith, Eq, ◌==◌, string_eq, eq_iff,
}

abbrev pub ToolCallId : Type 0
ToolCallId = String

-- `BTreeMap<String, Value>`
abbrev pub Extensions : Type 0 → Type 0
Extensions V = List (String × V)

pub record ToolCall (V : Type 0) : Type 0 where
  pub id : ToolCallId
  pub tool_name : String
  pub arguments : V

pub record ToolError : Type 0 where
  pub code : String
  pub message : String
  pub retryable : Bool

pub data ToolContent (V : Type 0) : Type 0 where
  text : String → ToolContent V
  json : V → ToolContent V

-- The fields of `success` are content, metadata and extensions; those of `failure` are the error
-- and extensions.
pub data ToolOutput (V : Type 0) : Type 0 where
  success : List (ToolContent V) → Extensions V → Extensions V → ToolOutput V
  failure : ToolError → Extensions V → ToolOutput V

pub record ToolResult (V : Type 0) : Type 0 where
  pub call_id : ToolCallId
  pub output : ToolOutput V

-- The derived `PartialEq` of a call.
module _ {V : Type 0} ⦃e : Eq V⦄ where
  abbrev pub tool_call_beq : ToolCall V → ToolCall V → Bool
  tool_call_beq a b = a.id == b.id && a.tool_name == b.tool_name && a.arguments == b.arguments

  pub tool_call_beq_iff : (a b : ToolCall V) → (tool_call_beq a b ≡ true) ↔ (a ≡ b)
  tool_call_beq_iff a b =
      ground
        (arith, eq_iff a.id b.id, eq_iff a.tool_name b.tool_name, e.beq_iff a.arguments b.arguments)
