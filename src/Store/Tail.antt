-- ===== src/Store/Tail.antt =====
-- crates/event-store/src/jsonl.rs: finding the last newline from the end of the file, and the repair of
-- a log whose last record lacks it.
pub mod Search
pub mod Repair
use young_agent.Prelude.{ℕ, zero, suc, ◌+◌, ◌-◌, Bool, is_some, none, some, eqb, if◌then◌else◌}
use young_agent.Agent.Action.{pure, ◌>>=◌, ◌>>◌}
use young_agent.Agent.Event.{AgentEvent}
use young_agent.Store.Bytes.{last_newline}
use young_agent.Store.Disk.{
  EventStoreError, inspect_for_append, open_for_repair, repair_tail, Codec, System, Store, update,
  open_existing, file_length, read_at, set_len, sync_data,
}
use young_agent.Store.Line.{decoded}
use young_agent.Store.Read.{lift}

-- `SEARCH_CHUNK_SIZE`
abbrev pub search_chunk_size : ℕ
search_chunk_size = 8192

module _ {V X J : Type 0} (sys : System X) where
  -- The loop on `search_end`, which `read_last_event` and `repair_truncated_tail` share. Each round reads
  -- one chunk and makes `search_end` smaller, so fuel of `search_end` is enough.
  unfoldable pub search_back : (X → EventStoreError V X J) → ℕ → ℕ → Store V X J ℕ
  unfolding read_at
  search_back wrap zero search_end = pure 0
  search_back wrap (suc fuel) search_end =
      if eqb search_end 0
      then pure 0
      else (let chunk_start = search_end - search_chunk_size in
          read_at sys wrap chunk_start (search_end - chunk_start) >>= λ chunk.
          elim (last_newline chunk) [
            | some newline_index ↦ pure (chunk_start + newline_index + 1)
            | none ↦ search_back wrap fuel chunk_start
          ])

  -- Whether the last byte is a newline.
  unfoldable pub is_terminated : (X → EventStoreError V X J) → ℕ → Store V X J Bool
  unfolding read_at
  is_terminated wrap length = do
    last_byte ← read_at sys wrap (length - 1) 1
    pure (is_some (last_newline last_byte))

  unfoldable pub cut_tail : ℕ → Store V X J ℕ
  unfolding search_back set_len sync_data
  cut_tail length = do
    committed_length ← search_back repair_tail length length
    set_len sys repair_tail committed_length
    sync_data sys repair_tail
    pure (length - committed_length)

  unfoldable pub repair_truncated_tail : Store V X J ℕ
  unfolding cut_tail is_terminated open_existing file_length
  repair_truncated_tail = do
    update (λ s. record s { append_file = none })
    open_existing sys open_for_repair
    length ← file_length sys repair_tail
    (if eqb length 0
        then pure 0
        else (is_terminated repair_tail length >>= λ terminated.
            if terminated then pure 0 else cut_tail length))

module _ {V X J : Type 0} (codec : Codec V J) (sys : System X) where
  unfoldable pub read_last_event : ℕ → ℕ → Store V X J (AgentEvent V)
  unfolding search_back read_at
  read_last_event length line = do
    record_start ← search_back sys inspect_for_append (length - 1) (length - 1)
    bytes ← read_at sys inspect_for_append record_start (length - record_start - 1)
    lift (decoded line (codec.from_slice bytes))
