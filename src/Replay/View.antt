-- ===== src/Replay/View.antt =====
-- crates/event-store/src/replay.rs: what the accessors of a `RunReplay` read through its indices.
use young_agent.Prelude.{List, get_elem?, ok, ◌>>=◌, collect}
use young_agent.Agent.Event.{AgentEvent, AgentError, ApprovalRequest}
use young_agent.Replay.Timeline
use young_agent.Replay.Timeline.{Replayed, ReplayedToolCallIndex, approval_request_at, error_at}
use young_agent.Replay.Run.{RunReplay}
use young_agent.Replay.Spec.{CallHistory, RunView}

module _ {V : Type 0} where
  -- The accessors of one `ReplayedToolCall`.
  unfoldable pub read_call : List (AgentEvent V) → ReplayedToolCallIndex → Replayed (CallHistory V)
  unfolding Timeline.turn_id Timeline.call Timeline.approval Timeline.approval_decision
      Timeline.result
  read_call events index = do
    turn ← Timeline.turn_id events index
    call ← Timeline.call events index
    approval ← Timeline.approval events index
    decision ← Timeline.approval_decision events index
    result ← Timeline.result events index
    ok (record {
      turn = turn;
      call = call;
      approval = approval;
      decision = decision;
      result = result;
    })

  -- `RunReplay::tool_calls`
  unfoldable pub tool_calls : RunReplay V → Replayed (List (CallHistory V))
  unfolding read_call
  tool_calls r = collect (read_call r.events) r.tool_calls

  -- `RunReplay::approvals`
  unfoldable pub approvals : RunReplay V → Replayed (List (ApprovalRequest V))
  approvals r = collect (λ i. approval_request_at (get_elem? r.events i)) r.approvals

  -- `RunReplay::errors`
  unfoldable pub errors : RunReplay V → Replayed (List AgentError)
  errors r = collect (λ i. error_at (get_elem? r.events i)) r.errors

  unfoldable pub view : RunReplay V → Replayed (RunView V)
  unfolding tool_calls approvals errors
  view r = do
    calls ← tool_calls r
    requests ← approvals r
    raised ← errors r
    ok (record {
      id = r.id;
      status = r.status;
      events = r.events;
      calls = calls;
      requests = requests;
      errors = raised;
    })
