-- ===== src/Store/Read.antt =====
-- crates/event-store/src/jsonl.rs: reading and decoding the whole log, and replaying it.
pub mod Back
pub mod Records
use young_agent.Prelude.{
  ℕ, suc, Option, none, some, List, [], ◌∷◌, map, Outcome, ok, err, panic, option_eq, nat_eq, Eq,
}
use young_agent.Agent.Action.{pure, ◌>>=◌, ◌>>◌}
use young_agent.Agent.Event.{AgentEvent, EventSequence}
use young_agent.Replay.Timeline.{Replayed}
use young_agent.Replay.Step.{ReplayCompatibility}
use young_agent.Replay.Run.{
  RunReplay, replay_events, replay_events_with_compatibility, replay_events_for_recovery,
}
use young_agent.Store.Bytes.{Line, lines}
use young_agent.Store.Line.{PersistedAgentEvent, next_expected, read_line}
use young_agent.Store.Disk.{
  EventStoreError, read_record, open_for_read, lock_for_read, Codec, System, Disk, bytes_of, Store,
  attempt, open_existing,
}

module _ {V X J : Type 0} where
  abbrev pub lift : {A : Type 0} → Outcome (EventStoreError V X J) A → Store V X J A
  lift o s = (o, s)

  -- Both results, the first error first.
  abbrev pub first_error :
      {A : Type 0}
      → Outcome (EventStoreError V X J) A
      → Outcome (EventStoreError V X J) (Unit {0})
      → Outcome (EventStoreError V X J) A
  first_error (ok a) (ok u) = ok a
  first_error (ok a) (err e) = err e
  first_error (ok a) panic = panic
  first_error (err e) u = err e
  first_error panic u = panic

module _ {V X J : Type 0} (sys : System X) where
  -- The lock is given back after whatever result; its own error comes second.
  unfoldable pub release :
      {A : Type 0}
      → (X → EventStoreError V X J)
      → Outcome (EventStoreError V X J) A × Disk
      → Outcome (EventStoreError V X J) A × Disk
  unfolding attempt
  release wrap (result, s) =
      let (unlocked, s') = attempt sys wrap s in (first_error result unlocked, s')

  abbrev pub unlocking : {A : Type 0} → (X → EventStoreError V X J) → Store V X J A → Store V X J A
  unlocking wrap m s = release wrap (m s)

module _ {V X J : Type 0} (codec : Codec V J) (sys : System X) where
  -- The loop, from the line after `line_number` on.
  unfoldable pub read_records :
      ℕ → Option (Option EventSequence) → List Line → Store V X J (List (PersistedAgentEvent V))
  unfolding attempt read_line
  read_records line_number expected [] = do attempt sys (read_record (suc line_number)); pure []
  read_records line_number expected (line ∷ rest) = do
    attempt sys (read_record (suc line_number))
    r ← lift (read_line codec (suc line_number) expected line)
    more ← read_records (suc line_number) (some (next_expected r.sequence)) rest
    pure (r ∷ more)

  unfoldable pub read_all_records_from : Store V X J (List (PersistedAgentEvent V))
  unfolding read_records
  read_all_records_from s = read_records 0 none (lines (bytes_of s.log)) s

  unfoldable pub read_all_records_unlocked : Store V X J (List (PersistedAgentEvent V))
  unfolding read_all_records_from open_existing
  read_all_records_unlocked = do open_existing sys open_for_read; read_all_records_from

  unfoldable pub read_all_records : Store V X J (List (PersistedAgentEvent V))
  unfolding read_all_records_from open_existing release
  read_all_records = do
    open_existing sys open_for_read
    attempt sys lock_for_read
    unlocking sys lock_for_read read_all_records_from

  unfoldable pub read_all : Store V X J (List (AgentEvent V))
  unfolding read_all_records
  read_all = do records ← read_all_records; pure (map (λ r. r.event) records)

  abbrev replay_result : {A : Type 0} → Replayed A → Outcome (EventStoreError V X J) A
  replay_result (ok a) = ok a
  replay_result (err e) = err (EventStoreError.replay e)
  replay_result panic = panic

  module _ ⦃e : Eq V⦄ where
    unfoldable pub replay : Store V X J (RunReplay V)
    unfolding read_all replay_events
    replay = do events ← read_all; lift (replay_result (replay_events events))

    unfoldable pub replay_with_compatibility : ReplayCompatibility → Store V X J (RunReplay V)
    unfolding read_all replay_events_with_compatibility
    replay_with_compatibility compatibility = do
      events ← read_all
      lift (replay_result (replay_events_with_compatibility events compatibility))

    unfoldable pub replay_for_recovery : Store V X J (RunReplay V)
    unfolding read_all replay_events_for_recovery
    replay_for_recovery = do
      events ← read_all
      lift (replay_result (replay_events_for_recovery events))
