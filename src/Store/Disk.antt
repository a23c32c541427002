-- ===== src/Store/Disk.antt =====
-- crates/event-store/src/jsonl.rs: the file, the calls of the operating system that the store makes, and
-- its errors. The store has one path: its errors carry that path, which the model leaves out, and no
-- code replaces the file that the path names, so an open handle is of the file at the path. Each call may
-- fail as `System.fails` has it. Waiting for a lock that another process holds is not modelled.
use young_agent.Prelude.{
  ℕ, suc, Bool, true, false, Option, none, some, List, [], ◌++◌, ◌⊎◌, Outcome, ok, err, eqb, length,
  drop, if◌then◌else◌,
}
use young_agent.Agent.Action.{Action, ◌>>◌}
use young_agent.Agent.Event.{AgentEvent, EventSequence}
use young_agent.Replay.Timeline.{ReplayError}
use young_agent.Store.Bytes.{Bytes, take}

-- `X` is `io::Error` and `J` is `serde_json::Error`.
pub data EventStoreError (V X J : Type 0) : Type 0 where
  encode : J → EventStoreError V X J
  open_for_append : X → EventStoreError V X J
  inspect_for_append : X → EventStoreError V X J
  open_for_repair : X → EventStoreError V X J
  repair_tail : X → EventStoreError V X J
  unterminated_log : EventStoreError V X J
  append : X → EventStoreError V X J
  open_for_read : X → EventStoreError V X J
  lock_for_read : X → EventStoreError V X J
  read_record : ℕ → X → EventStoreError V X J
  decode_record : ℕ → J → EventStoreError V X J
  truncated_record : ℕ → EventStoreError V X J
  invalid_event_sequence : ℕ → Option EventSequence → Option EventSequence → EventStoreError V X J
  replay : ReplayError → EventStoreError V X J
  reconciliation_conflict :
      EventSequence → List (AgentEvent V) → AgentEvent V → EventStoreError V X J

-- `serde_json`: `to_vec` and `from_slice`.
pub record Codec (V J : Type 0) : Type 0 where
  pub to_vec : AgentEvent V → J ⊎ Bytes
  pub from_slice : Bytes → J ⊎ AgentEvent V

-- The error, if any, of the call at each time, and how much a `write_all` that fails has written.
pub record System (X : Type 0) : Type 0 where
  pub fails : ℕ → Option X
  pub partly : ℕ → ℕ
  pub not_found : X
  pub already_exists : X
  pub unexpected_eof : X

pub record AppendFile : Type 0 where
  pub parent_directory_needs_sync : Bool
  pub fully_validated : Bool
  pub line_count : ℕ

-- The store with the file at its path. `stable` has what a loss of power leaves of the file, and
-- `entry_stable` whether it leaves the file's name.
pub record Disk : Type 0 where
  pub append_file : Option AppendFile
  pub log : Option Bytes
  pub stable : Bytes
  pub entry_stable : Bool
  pub clock : ℕ

abbrev pub bytes_of : Option Bytes → Bytes
bytes_of none = []
bytes_of (some bytes) = bytes

-- An empty file, nothing of which is stable.
abbrev pub created : Disk → Disk
created s = record s { log = some []; stable = []; entry_stable = false }

abbrev pub create_if_missing : Option Bytes → Disk → Disk
create_if_missing none s = created s
create_if_missing (some bytes) s = s

abbrev pub Store : Type 0 → Type 0 → Type 0 → Type 0 → Type 0
Store V X J A = Action Disk (EventStoreError V X J) A

module _ {V X J : Type 0} where
  abbrev pub answered :
      (X → EventStoreError V X J) → Option X → Outcome (EventStoreError V X J) (Unit {0})
  answered wrap none = ok tt
  answered wrap (some x) = err (wrap x)

  abbrev pub update : (Disk → Disk) → Store V X J (Unit {0})
  update f s = (ok tt, f s)

  abbrev pub exactly :
      (X → EventStoreError V X J) → X → ℕ → Bytes → Outcome (EventStoreError V X J) Bytes
  exactly wrap eof n bytes = if eqb (length bytes) n then ok bytes else err (wrap eof)

module _ {V X J : Type 0} (sys : System X) where
  -- One call, whose error `map_err` wraps.
  unfoldable pub attempt : (X → EventStoreError V X J) → Store V X J (Unit {0})
  attempt wrap s = (answered wrap (sys.fails s.clock), record s { clock = suc s.clock })

  -- `OpenOptions::open` with `create(true)`
  unfoldable pub open_or_create : (X → EventStoreError V X J) → Store V X J (Unit {0})
  unfolding attempt
  open_or_create wrap = do attempt wrap; update (λ s. create_if_missing s.log s)

  -- `OpenOptions::open` with `create_new(true)`
  unfoldable pub open_new : (X → EventStoreError V X J) → Store V X J (Unit {0})
  unfolding attempt
  open_new wrap = do
    attempt wrap
    λ s. elim s.log [ none ↦ (ok tt, created s) | some bytes ↦ (err (wrap sys.already_exists), s) ]

  -- `File::open`
  unfoldable pub open_existing : (X → EventStoreError V X J) → Store V X J (Unit {0})
  unfolding attempt
  open_existing wrap = do
    attempt wrap
    λ s. elim s.log [ none ↦ (err (wrap sys.not_found), s) | some bytes ↦ (ok tt, s) ]

  -- `seek(SeekFrom::End(0))`
  unfoldable pub file_length : (X → EventStoreError V X J) → Store V X J ℕ
  unfolding attempt
  file_length wrap = do attempt wrap; λ s. (ok (length (bytes_of s.log)), s)

  -- `seek` to a position and then `read_exact`
  unfoldable pub read_at : (X → EventStoreError V X J) → ℕ → ℕ → Store V X J Bytes
  unfolding attempt
  read_at wrap start n = do
    attempt wrap
    attempt wrap
    λ s. (exactly wrap sys.unexpected_eof n (take n (drop start (bytes_of s.log))), s)

  -- A call that fails may have written some of the bytes.
  abbrev write_part : (X → EventStoreError V X J) → Bytes → Option X → ℕ → Store V X J (Unit {0})
  write_part wrap bytes none n s = (ok tt, record s { log = some (bytes_of s.log ++ bytes) })
  write_part wrap bytes (some x) n s =
      (err (wrap x), record s { log = some (bytes_of s.log ++ take n bytes) })

  -- `write_all` to a file that was opened with `append(true)`
  unfoldable pub write_all : (X → EventStoreError V X J) → Bytes → Store V X J (Unit {0})
  write_all wrap bytes s =
      write_part wrap bytes (sys.fails s.clock) (sys.partly s.clock)
        (record s { clock = suc s.clock })

  -- `sync_data`, or `sync_all` on the file
  unfoldable pub sync_data : (X → EventStoreError V X J) → Store V X J (Unit {0})
  unfolding attempt
  sync_data wrap = do attempt wrap; update (λ s. record s { stable = bytes_of s.log })

  -- `sync_all` on the parent directory that `File::open` opens
  unfoldable pub sync_parent_directory : (X → EventStoreError V X J) → Store V X J (Unit {0})
  unfolding attempt
  sync_parent_directory wrap = do
    attempt wrap
    attempt wrap
    update (λ s. record s { entry_stable = true })

  -- `set_len`
  unfoldable pub set_len : (X → EventStoreError V X J) → ℕ → Store V X J (Unit {0})
  unfolding attempt
  set_len wrap n = do attempt wrap; update (λ s. record s { log = some (take n (bytes_of s.log)) })
