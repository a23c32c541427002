-- ===== src/Model/Message.antt =====
-- crates/model-runtime/src/client.rs: what the Agent Runtime sends to a model.
use young_agent.Prelude.{String, List, Option, none, some}
use young_agent.Tool.Call.{Extensions}
use young_agent.Model.Stream.{ModelToolCallId}

pub record ModelToolCall (V : Type 0) : Type 0 where
  pub id : ModelToolCallId
  pub name : String
  pub arguments : V

pub record ModelToolSpec (V : Type 0) : Type 0 where
  pub name : String
  pub description : String
  pub input_schema : V

pub data ModelMessageContent (V : Type 0) : Type 0 where
  text : String → ModelMessageContent V
  json : V → ModelMessageContent V

pub data ModelMessage (V : Type 0) : Type 0 where
  system : String → ModelMessage V
  user : String → ModelMessage V
  assistant : Option String → List (ModelToolCall V) → ModelMessage V
  tool : List (ModelMessageContent V) → String → ModelToolCallId → ModelMessage V

pub record ModelRequest (V : Type 0) : Type 0 where
  pub model : String
  pub messages : List (ModelMessage V)
  pub tools : List (ModelToolSpec V)
  pub metadata : Extensions V

abbrev pub assistant_with_tool_calls :
    {V : Type 0} → String → List (ModelToolCall V) → ModelMessage V
assistant_with_tool_calls content tool_calls = assistant (some content) tool_calls

abbrev pub assistant_tool_calls : {V : Type 0} → List (ModelToolCall V) → ModelMessage V
assistant_tool_calls tool_calls = assistant none tool_calls
