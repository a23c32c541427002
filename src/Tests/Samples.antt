-- ===== src/Tests/Samples.antt =====
-- Small logs on which the tests and the instances of the theorems run. JSON values are numbers.
use young_agent.Prelude.{ℕ, List, [], ◌∷◌, String, none, false}
use young_agent.Tool.Call.{ToolCall, ToolOutput, success, failure, text}
use young_agent.Agent.Event.{
  AgentEvent, Envelope, run_started, turn_started, tool_call_requested, approval_requested,
  approval_resolved, tool_result, run_finished, ApprovalDecision, ApprovalRequest,
  TerminalRunStatus,
}

abbrev pub at_run : Envelope ℕ
at_run = record { run_id = "run"; event_sequence = none; extensions = [] }

abbrev pub sample_call : ToolCall ℕ
sample_call = record { id = "run-tool-001"; tool_name = "write"; arguments = 7 }

abbrev pub sample_request : ApprovalRequest ℕ
sample_request = record { id = "run-approval-001"; call = sample_call; reason = "writes" }

abbrev pub written : ToolOutput ℕ
written = success (text "done" ∷ []) [] []

abbrev pub denied : String → ToolOutput ℕ
denied reason =
    failure (record { code = "approval_denied"; message = reason; retryable = false }) []

abbrev pub result_of : ToolOutput ℕ → AgentEvent ℕ
result_of output =
    tool_result at_run "turn-001" (record { call_id = "run-tool-001"; output = output })

abbrev pub up_to_approval : List (AgentEvent ℕ)
up_to_approval =
    run_started at_run
    ∷ turn_started at_run "turn-001"
    ∷ tool_call_requested at_run "turn-001" "model-1" sample_call
    ∷ approval_requested at_run "turn-001" sample_request
    ∷ []

-- Up to the end of a run whose one call was decided and answered.
abbrev pub decided_log : ApprovalDecision → ToolOutput ℕ → List (AgentEvent ℕ)
decided_log decision output =
    run_started at_run
    ∷ turn_started at_run "turn-001"
    ∷ tool_call_requested at_run "turn-001" "model-1" sample_call
    ∷ approval_requested at_run "turn-001" sample_request
    ∷ approval_resolved at_run "turn-001" "run-approval-001" decision
    ∷ result_of output
    ∷ run_finished at_run (TerminalRunStatus.completed "bye")
    ∷ []
