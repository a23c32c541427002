-- ===== src/Lib.antt =====
-- young-agent: a kernel for coding agents. An agent run (crates/agent-runtime) asks a model
-- (crates/model-runtime) for turns, sends the tool calls of a turn to a tool runtime
-- (crates/tool-runtime), asks for approval where a tool requires it, and writes all that happens as
-- canonical events. The event store (crates/event-store) keeps the events of a run in a file and
-- replays them into the state of the run.
--
-- Parts:
--   Prelude        Boolean tests, equality as an instance argument, lists, tables, the result type
--                  `Outcome` (`ok`, `err`, and `panic` for `unreachable!`, `expect` and an index out
--                  of range), and the relation `Both` of two fallible computations.
--   Tool           crates/tool-runtime/src/execution.rs and registry.rs. Call has the data of tool
--                  calls and results, Reason the bound on approval reasons and what JSON writes for a text, Prepared the
--                  classification and authorization of one call, Registry definitions,
--                  registration and dispatch. Authorization, Handled, Dispatch, Approval and Registration
--                  have the proofs. A handler is a parameter that reads and changes a world.
--   Model          crates/model-runtime/src/stream.rs, id.rs, client.rs: the data of stream events
--                  and requests.
--   Agent.Event    crates/agent-runtime/src/run.rs, turn.rs: canonical events and statuses. The
--                  fields that all variants share stand in an `Envelope`.
--   Agent.Stop     crates/agent-runtime/src/runtime.rs: the stop token. Latch has its methods as steps
--                  that threads may take in any order.
--   Agent          crates/agent-runtime/src/runtime.rs. Action is a state with failure, Runtime the
--                  state of a run, its collaborators and the emission of events, Turn one model
--                  turn, Loop the tool calls and the loop over the turns; Log is about what the
--                  sink has acknowledged when a run returns. The collaborators are functions of a world:
--                  the model client, the tool dispatcher, the event sink, the run control, and the
--                  other threads, whose stop requests arrive each time that the run looks at its
--                  token. A model stream is the finite list of the events that it yields.
--   Replay         crates/event-store/src/replay.rs. Timeline has the errors and the accessors of
--                  one tool call, Step the body of the loop of `replay_events_with_mode` with one
--                  definition per arm, Run the whole fold and the entry points, View the accessors
--                  of the replay model. Spec says what a log means without any index into it;
--                  Refine relates the fold to it; Accepted is about the logs that strict replay
--                  accepts.
--   Store          crates/event-store/src/jsonl.rs. Bytes and Lines are about the bytes of a log, Disk has
--                  the file and the calls of the operating system, Line and Read the reader, Tail the
--                  search from the end of the file and the repair, Append one append, Reconcile the
--                  recovery of one event; Log says what a log is without the reader. The world of a
--                  store is the file at its path, with what of it survives a loss of power, and a clock
--                  that counts calls; which calls fail, and how much a failing write has written, are
--                  parameters. `serde_json` is a parameter. That it reads an event back as it
--                  wrote it, and writes no newline, is asked of the one event that is appended: its
--                  reader has a limit on nesting and need not read every float exactly.
--   Patch          crates/capability-coding/src/patch.rs. Hunk has the data of a parsed patch, Paths
--                  compares paths by their components, Diff says what the hunks of a unified diff
--                  make of a text, Lines cuts a text into lines, Apply applies hunks to a text;
--                  Apply/Sound, Complete and Target relate the two. Range reads a range of a hunk header
--                  and Body the lines below it. The cancellation flag is a function
--                  of the number of times that it was read. The message of an error is the data that its
--                  text is made of, and a path is the text that it was made from.
--   Tests          small logs, runs on them, and the theorems applied to them.
--
-- How the model corresponds to the code: `serde_json::Value` is a type `V` with a Boolean equality.
-- An id newtype is its text. A `HashMap` is an association list whose first entry counts and a
-- `HashSet` a list; no operation depends on their order. `usize` and `u64` are natural numbers: an
-- index is below the length of a list in memory; where the code saturates or checks an addition,
-- the limit is written out, with `usize` of 64 bits. A `match` with guards
-- is a chain of tests in the order of the code, and an early return is `err`. All loops are
-- structural recursion, the loop over the turns on the 128 turns that are left. Decimal printing has
-- fuel 20, as a `usize` has at most 20 digits. The search
-- for the last newline of a file has the length searched as fuel, since each round shortens it.
--
-- Not modelled: the `Display` texts of errors, serde attributes and JSON, waiting for the lock of a file
-- that another process holds, terminals and processes, the wrappers of a run that supply a default
-- token, crates/cli-proof-surface, and of crates/capability-coding all but hunks, how their lines and
-- ranges are read and how they are applied.
pub mod Prelude
pub mod Tool
pub mod Model
pub mod Agent
pub mod Replay
pub mod Tests
pub mod Store
pub mod Patch
