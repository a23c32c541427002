-- ===== src/Store/Append/Written.antt =====
-- crates/event-store/src/jsonl.rs: what one append leaves behind, whatever fails.
use young_agent.Prelude.{ℕ, ◌≡◌, refl, Bool, true, false, some, if◌then◌else◌}
use young_agent.Agent.Action.{pure, ◌>>◌}
use young_agent.Store.Bytes.{Bytes}
use young_agent.Store.Disk.{
  EventStoreError, System, Disk, AppendFile, bytes_of, attempt, sync_data, sync_parent_directory,
}
use young_agent.Store.Triples.{Gives, Gives-bind, at, Faulty, attempt-Gives}
use young_agent.Store.Append.{handle, set_handle, make_durable}

-- All of the file, with its name, survives a loss of power.
abbrev pub IsDurable : Disk → Type 0
IsDurable s = (s.stable ≡ bytes_of s.log) × (s.entry_stable ≡ true)

-- A handle that needs no more `sync_all` of the directory has made one.
abbrev pub Named : AppendFile → Bool → Type 0
Named f entry_stable = f.parent_directory_needs_sync ≡ false → entry_stable ≡ true

-- What `make_durable` does to a store with this handle.
abbrev pub Synced : Disk → AppendFile → Disk → Type 0
Synced s f s' =
    (f' : AppendFile) × (s'.append_file ≡ some f')
    × (s'.log ≡ s.log)
    × IsDurable s'
    × (f'.line_count ≡ f.line_count)
    × (f'.fully_validated ≡ f.fully_validated)

module _ {V X J : Type 0} (sys : System X) (start : Disk) (f : AppendFile) (bytes : Bytes)
    (named : Named f start.entry_stable) (P : EventStoreError V X J → Disk → Type 0)
    (bad : (e : EventStoreError V X J) (s : Disk) → Faulty sys → s.log ≡ some bytes → P e s) where
  abbrev written : Disk
  written = record start { append_file = some f; log = some bytes }

  abbrev flushed : Disk
  flushed = record written { stable = bytes }

  abbrev at_flushed : (e : EventStoreError V X J) (n : ℕ) → Faulty sys → P e (at n flushed)
  at_flushed e n flt = bad e (at n flushed) flt refl

  -- The two branches of the test on `parent_directory_needs_sync`.
  name_by :
      (b : Bool) (n : ℕ)
      → f.parent_directory_needs_sync ≡ b
      → Gives P
          (λ u. Synced written f)
          ((if b
              then (do
                sync_parent_directory sys EventStoreError.append
                set_handle (some (record f { parent_directory_needs_sync = false })))
              else pure tt)
            (at n flushed))
  unfolding sync_parent_directory
  name_by true n q =
      let wrap = EventStoreError.append in
      Gives-bind P (λ u. Synced written f) (sync_parent_directory sys wrap (at n flushed)) _
        (Gives-bind P _ (attempt sys wrap (at n flushed)) _ (
          attempt-Gives sys flushed P at_flushed wrap _ n λ m.
            Gives-bind P _ (attempt sys wrap (at m flushed)) _ (
              attempt-Gives sys flushed P at_flushed wrap _ m λ m'. (
                record f { parent_directory_needs_sync = false },
                refl,
                refl,
                (refl, refl),
                refl,
                refl,
              ))))
  name_by false n q = (f, refl, refl, (refl, named q), refl, refl)

  pub make_durable-Gives :
      (n : ℕ) → Gives P (λ u. Synced written f) (make_durable sys (at n written))
  unfolding make_durable sync_data handle
  make_durable-Gives n =
      let wrap = EventStoreError.append in
      Gives-bind P (λ u. Synced written f) (sync_data sys wrap (at n written)) _
        (Gives-bind P _ (attempt sys wrap (at n written)) _ (
          attempt-Gives sys written P (λ e k flt. bad e (at k written) flt refl) wrap _ n
            λ m. name_by f.parent_directory_needs_sync m refl))
