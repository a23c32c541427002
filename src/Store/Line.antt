-- ===== src/Store/Line.antt =====
-- crates/event-store/src/jsonl.rs: what the reader does with one line of the log.
pub mod Decoded
use young_agent.Prelude.{
  ℕ, ◌+◌, not, Option, none, some, ◌⊎◌, inl, inr, Outcome, ok, err, ◌>>=◌, eqb, ltb, if◌then◌else◌,
  reject_if, option_eq, nat_eq, ◌==◌,
}
use young_agent.Agent.Event.{AgentEvent, EventSequence, event_sequence}
use young_agent.Tool.Prepared.{u64_max}
use young_agent.Store.Bytes.{Line}
use young_agent.Store.Disk.{
  EventStoreError, decode_record, truncated_record, invalid_event_sequence, Codec,
}

pub record PersistedAgentEvent (V : Type 0) : Type 0 where
  pub sequence : Option EventSequence
  pub event : AgentEvent V

-- `EventSequence::new(n.as_u64().saturating_add(1))`
abbrev pub saturating_next : EventSequence → EventSequence
saturating_next n = if ltb n u64_max then n + 1 else n

-- The sequence that the record after one with this sequence must have.
abbrev pub next_expected : Option EventSequence → Option EventSequence
next_expected none = none
next_expected (some n) = some (saturating_next n)

module _ {V X J : Type 0} where
  -- `match expected_sequence`
  abbrev pub check_expected :
      ℕ
      → Option (Option EventSequence)
      → Option EventSequence
      → Outcome (EventStoreError V X J) (Unit {0})
  check_expected line none none = ok tt
  check_expected line none (some found) =
      reject_if (not (eqb found 1)) (invalid_event_sequence line (some 1) (some found))
  check_expected line (some expected) found =
      reject_if (not (found == expected)) (invalid_event_sequence line expected found)

  abbrev pub decoded : ℕ → J ⊎ AgentEvent V → Outcome (EventStoreError V X J) (AgentEvent V)
  decoded line (inl source) = err (decode_record line source)
  decoded line (inr event) = ok event

module _ {V X J : Type 0} (codec : Codec V J) where
  -- The checks on one line, the record of which is the rest of the loop's body.
  unfoldable pub read_line :
      ℕ
      → Option (Option EventSequence)
      → Line
      → Outcome (EventStoreError V X J) (PersistedAgentEvent V)
  read_line line expected (record_bytes, is_terminated) =
      decoded line (codec.from_slice record_bytes) >>= λ event.
      check_expected line expected (event_sequence event) >>= λ _.
      reject_if (not is_terminated) (truncated_record line) >>= λ _.
      ok (record { sequence = event_sequence event; event = event })
