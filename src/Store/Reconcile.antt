-- ===== src/Store/Reconcile.antt =====
-- crates/event-store/src/jsonl.rs: establishing one event after an append whose outcome is not known.
use young_agent.Prelude.{
  suc, ◌+◌, Bool, true, false, ◌&&◌, ◌||◌, Option, none, some, List, [], ◌∷◌, map, ok, err, eqb,
  if◌then◌else◌, is_some, is_none, length, get_last?, any, string_eq, option_eq, nat_eq, ◌==◌, Eq,
}
use young_agent.Agent.Action.{pure, ◌>>=◌, ◌>>◌}
use young_agent.Agent.Event.{
  AgentEvent, EventSequence, tool_call_requested, approval_requested, approval_resolved,
  tool_result, run_finished, with_event_sequence,
}
use young_agent.Agent.Runtime.{EventDurability, durable, buffered}
use young_agent.Store.Disk.{
  EventStoreError, reconciliation_conflict, open_for_append, Codec, System, Store, open_existing,
  sync_data, sync_parent_directory,
}
use young_agent.Store.Line.{PersistedAgentEvent}
use young_agent.Store.Read.{lift, read_all_records}
use young_agent.Store.Tail.{repair_truncated_tail}
use young_agent.Store.Append.{append_with_durability}

abbrev pub is_durable : EventDurability → Bool
is_durable buffered = false
is_durable durable = true

module _ {V : Type 0} where
  unfoldable pub has_same_durable_identity : AgentEvent V → AgentEvent V → Bool
  has_same_durable_identity (tool_call_requested m t i c) (tool_call_requested m' t' i' c') =
      m.run_id == m'.run_id && c.id == c'.id
  has_same_durable_identity (approval_requested m t r) (approval_requested m' t' r') =
      m.run_id == m'.run_id && r.id == r'.id
  has_same_durable_identity (approval_resolved m t i d) (approval_resolved m' t' i' d') =
      m.run_id == m'.run_id && i == i'
  has_same_durable_identity (tool_result m t r) (tool_result m' t' r') =
      m.run_id == m'.run_id && r.call_id == r'.call_id
  has_same_durable_identity (run_finished m s) (run_finished m' s') = m.run_id == m'.run_id
  has_same_durable_identity _ _ = false

  -- The test by which `reconcile` filters the records.
  unfoldable pub is_candidate :
      EventSequence → EventDurability → AgentEvent V → PersistedAgentEvent V → Bool
  unfolding has_same_durable_identity
  is_candidate sequence durability attempted r =
      r.sequence == some sequence
      || is_durable durability && has_same_durable_identity r.event attempted

  abbrev pub filter :
      (PersistedAgentEvent V → Bool) → List (PersistedAgentEvent V) → List (PersistedAgentEvent V)
  filter p [] = []
  filter p (r ∷ rest) = let kept = filter p rest in if p r then r ∷ kept else kept

  abbrev pub events_of : List (PersistedAgentEvent V) → List (AgentEvent V)
  events_of records = map (λ r. r.event) records

  abbrev pub last_of : Option (PersistedAgentEvent V) → List (AgentEvent V)
  last_of none = []
  last_of (some r) = r.event ∷ []

module _ {V X J : Type 0} (sys : System X) where
  -- `self.path.exists()`, which is false where the call fails.
  unfoldable pub exists : Store V X J Bool
  exists s = (ok (is_none (sys.fails s.clock) && is_some s.log), record s { clock = suc s.clock })

  unfoldable pub sync_existing_log : Store V X J (Unit {0})
  unfolding open_existing sync_data sync_parent_directory
  sync_existing_log = do
    open_existing sys open_for_append
    sync_data sys EventStoreError.append
    sync_parent_directory sys EventStoreError.append

module _ {V X J : Type 0} ⦃same : Eq (AgentEvent V)⦄ (codec : Codec V J) (sys : System X)
    (sequence : EventSequence) (event : AgentEvent V) (durability : EventDurability) where
  abbrev attempted : AgentEvent V
  attempted = with_event_sequence event sequence

  abbrev conflict : List (AgentEvent V) → Store V X J (Unit {0})
  conflict found = lift (err (reconciliation_conflict sequence found attempted))

  -- The records of a repaired log.
  unfoldable pub repaired_records : Store V X J (List (PersistedAgentEvent V))
  unfolding exists repair_truncated_tail read_all_records
  repaired_records = exists sys >>= λ there.
      if there
      then (repair_truncated_tail sys >>= λ removed. read_all_records codec sys)
      else pure []

  -- What follows the filter, by the records that passed it.
  unfoldable pub settle_candidates :
      List (PersistedAgentEvent V) → List (PersistedAgentEvent V) → Store V X J (Unit {0})
  unfolding sync_existing_log append_with_durability
  settle_candidates records [] =
      if eqb sequence (length records + 1)
      then append_with_durability codec sys (some sequence) event (is_durable durability)
      else conflict (last_of (get_last? records))
  settle_candidates records (r ∷ []) =
      if r.sequence == some sequence && r.event == attempted
      then (if is_durable durability then sync_existing_log sys else pure tt)
      else conflict (r.event ∷ [])
  settle_candidates records (r ∷ r' ∷ rest) = conflict (events_of (r ∷ r' ∷ rest))

  unfoldable pub reconcile : Store V X J (Unit {0})
  unfolding repaired_records settle_candidates is_candidate
  reconcile = do
    records ← repaired_records
    (if any (λ r. is_none r.sequence) records
        then conflict (events_of records)
        else settle_candidates records
            (filter (is_candidate sequence durability attempted) records))
