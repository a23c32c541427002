-- ===== src/Store/Append.antt =====
-- crates/event-store/src/jsonl.rs: the place where the next record goes, and one append.
pub mod Place
pub mod Inspect
pub mod Written
pub mod Kept
pub mod Whole
use young_agent.Prelude.{
  ℕ, suc, Bool, true, false, Option, none, some, List, [], ◌∷◌, ◌++◌, ◌⊎◌, inl, inr, length,
  get_last?, Outcome, ok, err, panic, eqb, if◌then◌else◌,
}
use young_agent.Agent.Action.{pure, ◌>>=◌, ◌>>◌}
use young_agent.Agent.Event.{AgentEvent, EventSequence, event_sequence, with_event_sequence}
use young_agent.Agent.Runtime.{EventDurability, durable, buffered}
use young_agent.Store.Bytes.{Bytes, newline}
use young_agent.Store.Disk.{
  EventStoreError, open_for_append, inspect_for_append, unterminated_log, invalid_event_sequence,
  Codec, System, AppendFile, Disk, Store, attempt, update, open_or_create, open_new, file_length,
  write_all, sync_data, sync_parent_directory,
}
use young_agent.Store.Line.{PersistedAgentEvent, saturating_next}
use young_agent.Store.Read.{lift, release, unlocking, read_all_records_unlocked}
use young_agent.Store.Tail.{is_terminated, read_last_event}

pub data AppendPosition : Type 0 where
  empty : AppendPosition
  legacy : AppendPosition
  sequenced : EventSequence → AppendPosition

abbrev pub new_append_file : Bool → AppendFile
new_append_file validated = record {
  parent_directory_needs_sync = true;
  fully_validated = validated;
  line_count = 0;
}

abbrev pub position_after : Option EventSequence → AppendPosition
position_after none = legacy
position_after (some n) = sequenced (saturating_next n)

abbrev pub line_after : ℕ → Option EventSequence → ℕ
line_after count none = saturating_next count
line_after count (some n) = saturating_next n

module _ {V : Type 0} where
  -- The event as it is written.
  abbrev pub stamped : Option EventSequence → AgentEvent V → AgentEvent V
  stamped none event = event
  stamped (some n) event = with_event_sequence event n

  abbrev pub or_own : Option EventSequence → AgentEvent V → Option EventSequence
  or_own none event = event_sequence event
  or_own (some n) event = some n

module _ {V X J : Type 0} where
  -- `append_file.as_mut().expect("append file is initialized")`
  unfoldable pub handle : Store V X J AppendFile
  handle s = elim s.append_file [ none ↦ (panic, s) | some f ↦ (ok f, s) ]

  abbrev pub set_handle : Option AppendFile → Store V X J (Unit {0})
  set_handle f = update (λ s. record s { append_file = f })

  abbrev pub mismatch :
      ℕ → Option EventSequence → Option EventSequence → Outcome (EventStoreError V X J) (Unit {0})
  mismatch line expected found = err (invalid_event_sequence line expected found)

  -- `match position`
  abbrev pub check_position :
      AppendPosition → ℕ → Option EventSequence → Outcome (EventStoreError V X J) (Unit {0})
  check_position empty line none = ok tt
  check_position empty line (some found) =
      if eqb found 1 then ok tt else mismatch line (some 1) (some found)
  check_position legacy line none = ok tt
  check_position legacy line (some found) = mismatch line none (some found)
  check_position (sequenced expected) line none = mismatch line (some expected) none
  check_position (sequenced expected) line (some found) =
      if eqb found expected then ok tt else mismatch line (some expected) (some found)

  abbrev pub last_event :
      List (PersistedAgentEvent V) → Outcome (EventStoreError V X J) (AgentEvent V)
  last_event records = elim (get_last? records) [ none ↦ panic | some r ↦ ok r.event ]

  -- Where an append fails, the next one opens and checks the log again.
  abbrev pub forget_on_error :
      Outcome (EventStoreError V X J) (Unit {0}) × Disk
      → Outcome (EventStoreError V X J) (Unit {0}) × Disk
  forget_on_error (ok u, s) = (ok u, s)
  forget_on_error (err e, s) = (err e, record s { append_file = none })
  forget_on_error (panic, s) = (panic, s)

  abbrev pub encoded : J ⊎ Bytes → Outcome (EventStoreError V X J) Bytes
  encoded (inl source) = err (EventStoreError.encode source)
  encoded (inr bytes) = ok (bytes ++ newline ∷ [])

module _ {V X J : Type 0} (sys : System X) where
  -- `if append_file.is_none()`
  unfoldable pub ensure_append_file : Store V X J (Unit {0})
  unfolding open_or_create
  ensure_append_file s = elim s.append_file [
    | some f ↦ (ok tt, s)
    | none ↦ (do open_or_create sys open_for_append; set_handle (some (new_append_file false))) s
  ]

  unfoldable pub make_durable : Store V X J (Unit {0})
  unfolding sync_data sync_parent_directory handle
  make_durable = do
    sync_data sys EventStoreError.append
    f ← handle
    (if f.parent_directory_needs_sync
        then (do
          sync_parent_directory sys EventStoreError.append
          set_handle (some (record f { parent_directory_needs_sync = false })))
        else pure tt)

  unfoldable pub create_new : Store V X J (Unit {0})
  unfolding open_new
  create_new = do open_new sys open_for_append; set_handle (some (new_append_file true))

module _ {V X J : Type 0} (codec : Codec V J) (sys : System X) where
  -- The last event, from the end of a log that this handle has validated, or from the whole log.
  unfoldable pub find_last_event : ℕ → AppendFile → Store V X J (AgentEvent V)
  unfolding read_last_event read_all_records_unlocked
  find_last_event file_length f =
      if f.fully_validated
      then read_last_event codec sys file_length (if eqb f.line_count 0 then 1 else f.line_count)
      else do
        records ← read_all_records_unlocked codec sys
        set_handle (some (record f { line_count = length records; fully_validated = true }))
        lift (last_event records)

  -- The position in a log that ends with a newline.
  unfoldable pub position_in : ℕ → AppendFile → Store V X J (AppendPosition × ℕ)
  unfolding find_last_event handle
  position_in size f = do
    event ← find_last_event size f
    f' ← handle
    pure (position_after (event_sequence event), line_after f'.line_count (event_sequence event))

  unfoldable pub inspect_append_position : Store V X J (AppendPosition × ℕ)
  unfolding handle position_in is_terminated file_length
  inspect_append_position = do
    size ← file_length sys inspect_for_append
    f ← handle
    (if eqb size 0
        then (do
          set_handle (some (record f { fully_validated = true; line_count = 0 }))
          pure (empty, 1))
        else (is_terminated sys inspect_for_append size >>= λ terminated.
            if terminated then position_in size f else lift (err unterminated_log)))

  unfoldable pub validate_append_sequence : Option EventSequence → Store V X J (Unit {0})
  unfolding inspect_append_position
  validate_append_sequence found = do
    (position, line) ← inspect_append_position
    lift (check_position position line found)

  -- The closure between the lock and the unlock.
  unfoldable pub write_record : Option EventSequence → Bytes → Bool → Store V X J (Unit {0})
  unfolding validate_append_sequence write_all attempt make_durable handle
  write_record sequence bytes is_durable = do
    validate_append_sequence sequence
    write_all sys EventStoreError.append bytes
    attempt sys EventStoreError.append
    (if is_durable then make_durable sys else pure tt)
    f ← handle
    set_handle (some (record f { line_count = suc f.line_count }))

  unfoldable pub append_record : Option EventSequence → Bytes → Bool → Store V X J (Unit {0})
  unfolding ensure_append_file attempt release write_record
  append_record sequence bytes is_durable = do
    ensure_append_file sys
    attempt sys inspect_for_append
    λ s.
        forget_on_error
          (unlocking sys EventStoreError.append (write_record sequence bytes is_durable) s)

  unfoldable pub append_with_durability :
      Option EventSequence → AgentEvent V → Bool → Store V X J (Unit {0})
  unfolding append_record
  append_with_durability sequence event is_durable = do
    bytes ← lift (encoded (codec.to_vec (stamped (or_own sequence event) event)))
    append_record (or_own sequence event) bytes is_durable

  -- `append` and `append_durable` of the store.
  unfoldable pub append_event : AgentEvent V → EventDurability → Store V X J (Unit {0})
  unfolding append_with_durability
  append_event event buffered = append_with_durability none event false
  append_event event durable = append_with_durability none event true

  -- `append` and `append_durable` of `AgentEventSink`.
  unfoldable pub append_at : EventSequence → AgentEvent V → EventDurability → Store V X J (Unit {0})
  unfolding append_with_durability
  append_at sequence event buffered = append_with_durability (some sequence) event false
  append_at sequence event durable = append_with_durability (some sequence) event true
