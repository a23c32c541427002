-- ===== src/Tests/StoreWitnesses.antt =====
-- The theorems on crates/event-store/src/jsonl.rs at small files: a new log, a log with one record, and
-- one behind which a part of a record stands.
use young_agent.Prelude.{
  ℕ, true, none, some, List, [], ◌∷◌, ◌++◌, ◌⊎◌, inr, ◌≡◌, refl, ok, String, arith,
}
use young_agent.Agent.Action.{◌>>◌}
use young_agent.Agent.Event.{AgentEvent}
use young_agent.Store.Bytes.{Bytes}
use young_agent.Store.Disk.{Disk, EventStoreError, repair_tail}
use young_agent.Store.Log.{IsLog}
use young_agent.Store.Triples.{Gives, Faulty}
use young_agent.Store.Read.{read_all}
use young_agent.Store.Read.Back.{read_all-returns, read_all-IsLog, Unread}
use young_agent.Store.Tail.{search_back, repair_truncated_tail}
use young_agent.Store.Tail.Search.{search_back-committed}
use young_agent.Store.Tail.Repair.{repair_truncated_tail-committed, Repaired, Unrepaired}
use young_agent.Store.Append.{append_with_durability, create_new}
use young_agent.Store.Guarantees.{
  IsReady, IsTorn, NotAppended, IsAppended, append_with_durability-IsAppended,
}
use young_agent.Store.Recovery.{repair_truncated_tail-IsReady}
use young_agent.Store.RoundTrip.{append_with_durability-read_all, create_new-IsReady, NotCreated}
use young_agent.Tests.StoreSamples.{
  started, sample_codec, sample_codec-ReadsBack, sample_system, sample_disk,
}

-- The log with the record that has number 1.
abbrev one_record : Bytes
one_record = 12 ∷ 10 ∷ []

abbrev one_event : List (AgentEvent ℕ)
one_event = started (some 1) ∷ []

one_record-IsLog : IsLog sample_codec one_record one_event
one_record-IsLog = ((12 ∷ []) ∷ [], refl, ((refl, tt), (refl, refl, tt)))

no_file-IsReady : IsReady sample_codec sample_system [] (sample_disk none)
no_file-IsReady = ([], ((tt, tt), refl, λ f q. absurd (cc)))

one_record-IsReady : IsReady sample_codec sample_system one_event (sample_disk (some one_record))
one_record-IsReady = ((12 ∷ []) ∷ [], (((refl, tt), (refl, refl, tt)), refl, λ f q. absurd (cc)))

-- The record of number 2 without its newline.
abbrev torn_disk : Disk
torn_disk = sample_disk (some (12 ∷ 10 ∷ 13 ∷ []))

torn_disk-IsTorn : IsTorn sample_codec sample_system one_event (started (some 2)) torn_disk
torn_disk-IsTorn =
    ((12 ∷ []) ∷ [], 13 ∷ [], ((refl, tt), (refl, refl, tt)), refl, refl, (refl, 1, refl, inr refl))

read_all-returns_example :
    Gives
      (λ (x : EventStoreError ℕ String (Unit {0})). Unread sample_system one_record)
      (λ events s'. (events ≡ one_event) × (s'.log ≡ some one_record))
      (read_all sample_codec sample_system (sample_disk (some one_record)))
read_all-returns_example =
    read_all-returns sample_codec sample_system (sample_disk (some one_record)) one_record one_event
      refl one_record-IsLog

read_all-IsLog_example :
    Gives
      (λ (x : EventStoreError ℕ String (Unit {0})) s'. Unit {0})
      (λ es s'. IsLog sample_codec one_record es)
      (read_all sample_codec sample_system (sample_disk (some one_record)))
read_all-IsLog_example = read_all-IsLog sample_codec sample_system (sample_disk (some one_record))

search_back-committed_example :
    Gives {E = EventStoreError ℕ String (Unit {0})}
      (λ e s'. Faulty sample_system × (s'.log ≡ torn_disk.log))
      (λ start s'. (start ≡ 2) × (s'.log ≡ torn_disk.log))
      (search_back sample_system repair_tail 3 3 torn_disk)
search_back-committed_example =
    search_back-committed sample_system torn_disk repair_tail 3 3 (omega arith) (omega arith)

repair_truncated_tail-committed_example :
    Gives
      (λ (e : EventStoreError ℕ String (Unit {0})). Unrepaired sample_system (12 ∷ 10 ∷ 13 ∷ []))
      (Repaired (12 ∷ 10 ∷ 13 ∷ []))
      (repair_truncated_tail sample_system torn_disk)
repair_truncated_tail-committed_example =
    repair_truncated_tail-committed ℕ (Unit {0}) sample_system torn_disk (12 ∷ 10 ∷ 13 ∷ []) refl

append_with_durability-IsAppended_example :
    Gives
      (NotAppended sample_codec sample_system one_event (started (some 2)))
      (IsAppended sample_codec sample_system one_event (started (some 2)) true)
      (append_with_durability sample_codec sample_system
        (some 2)
        (started none)
        true
        (sample_disk (some one_record)))
append_with_durability-IsAppended_example =
    append_with_durability-IsAppended sample_codec sample_system one_event
      (sample_disk (some one_record)) (some 2) (started none) true (sample_codec-ReadsBack _)
      one_record-IsReady

repair_truncated_tail-IsReady_example :
    Gives
      (λ (x : EventStoreError ℕ String (Unit {0})) s'. Faulty sample_system)
      (λ removed s'.
        IsReady sample_codec sample_system one_event s'
        ⊎ IsReady sample_codec sample_system (one_event ++ started (some 2) ∷ []) s')
      (repair_truncated_tail sample_system torn_disk)
repair_truncated_tail-IsReady_example =
    repair_truncated_tail-IsReady sample_codec sample_system one_event (started (some 2)) torn_disk
      torn_disk-IsTorn

append_with_durability-read_all_example :
    ((append_with_durability sample_codec sample_system (some 1) (started none) true
        >> read_all sample_codec sample_system)
      (sample_disk none)).0
    ≡ ok (started (some 1) ∷ [])
append_with_durability-read_all_example =
    append_with_durability-read_all sample_codec sample_system [] (sample_disk none) (some 1)
      (started none) true (12 ∷ []) (sample_codec-ReadsBack _) no_file-IsReady (λ n. refl) refl refl

create_new-IsReady_example :
    Gives
      (NotCreated {V = ℕ} {X = String} {J = Unit {0}} sample_system (sample_disk none))
      (λ u s'. ((sample_disk none).log ≡ none) × IsReady sample_codec sample_system [] s')
      (create_new sample_system (sample_disk none))
create_new-IsReady_example = create_new-IsReady sample_codec sample_system (sample_disk none)
