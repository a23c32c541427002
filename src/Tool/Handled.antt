-- ===== src/Tool/Handled.antt =====
-- crates/tool-runtime/src/registry.rs: which handler answers a call that was authorized, and how its answer
-- comes back.
use young_agent.Prelude.{
  ◌≡◌, refl, ◌⊎◌, inl, inr, none, some, ◌==◌, string_eq, eq_iff, split, lookup, Option-cases,
}
use young_agent.Tool.Call.{ToolCall, ToolOutput, success, failure}
use young_agent.Tool.Prepared.{tool_error, failed, normalize_dispatcher_output}
use young_agent.Tool.Registry.{ToolRuntime, RegisteredTool, unknown_tool, run_handler}

module _ {V : Type 0} where
  -- How the output of a handler is answered: as it is, but where it has the code reserved for denials
  -- by a failure with a code of its own.
  abbrev pub Answer : ToolOutput V → ToolOutput V → Type 0
  Answer (success content metadata extensions) answer = answer ≡ success content metadata extensions
  Answer (failure error extensions) answer =
      ((error.code ≡ "approval_denied" → ⊥) × (answer ≡ failure error extensions))
      ⊎ ((error.code ≡ "approval_denied")
          × (answer
              ≡ failed (
                  tool_error "reserved_tool_error_code"
                    "tool dispatcher returned reserved error code 'approval_denied'")))

  normalize-Answer : (output : ToolOutput V) → Answer output (normalize_dispatcher_output output)
  unfolding normalize_dispatcher_output
  normalize-Answer (success content metadata extensions) = refl
  normalize-Answer (failure error extensions) =
      split (error.code == "approval_denied") (λ q. rw q (inr ((eq_iff _ _).0 q, refl)))
        λ q. rw q (inl ((λ same. cc (q, (eq_iff error.code "approval_denied").1 same)), refl))

module _ {W V : Type 0} where
  -- The handler of this tool was executed on the call, once, in this world: the world is the one that it
  -- left, and its output was answered.
  abbrev pub HandledBy : RegisteredTool W V → W → ToolCall V → ToolOutput V × W → Type 0
  HandledBy tool world call result =
      let ran = tool.handler.execute world call in Answer ran.0 result.0 × (result.1 ≡ ran.1)

  -- The tool that the call names was executed, or there is none and the call fails in an unchanged world.
  abbrev pub Handled : ToolRuntime W V → W → ToolCall V → ToolOutput V × W → Type 0
  Handled runtime world call result =
      ((lookup call.tool_name runtime.tools ≡ none)
        × (result ≡ (failed (unknown_tool call.tool_name), world)))
      ⊎ ((tool : RegisteredTool W V) × (lookup call.tool_name runtime.tools ≡ some tool)
          × HandledBy tool world call result)

  pub run_handler-Handled :
      (runtime : ToolRuntime W V) (world : W) (call : ToolCall V)
      → Handled runtime world call (run_handler runtime world call)
  unfolding run_handler
  run_handler-Handled runtime world call =
      elim (Option-cases (lookup call.tool_name runtime.tools)) [
        | inl q ↦ inl (q, rw (q, run_handler) refl)
        | inr (tool, q) ↦ inr (
          tool,
          q,
          rw (q, run_handler) (normalize-Answer (tool.handler.execute world call).0, refl),
        )
      ]
