-- ===== src/Store/Read/Records.antt =====
-- crates/event-store/src/jsonl.rs: the loop that reads the lines of a log.
use young_agent.Prelude.{
  ℕ, suc, ◌≡◌, refl, ap, subst, Option, some, List, [], ◌∷◌, map, option_eq, nat_eq,
}
use young_agent.Agent.Event.{AgentEvent, EventSequence, event_sequence}
use young_agent.Store.Bytes.{Bytes, Line}
use young_agent.Store.Lines.{ended}
use young_agent.Store.Disk.{EventStoreError, read_record, Codec, System, Disk, attempt}
use young_agent.Store.Triples.{Gives-outcome, Gives, Gives-bind, at, Faulty, attempt-Gives}
use young_agent.Store.Line.{PersistedAgentEvent, next_expected, read_line}
use young_agent.Store.Log.{Records, persisted}
use young_agent.Store.Read.{lift, read_records}
use young_agent.Store.Line.Decoded.{read_line-ok, read_line-Returns, read_line-inv}

module _ {V X J : Type 0} (codec : Codec V J) (sys : System X) (s : Disk)
    (P : EventStoreError V X J → Disk → Type 0)
    (bad : (e : EventStoreError V X J) (n : ℕ) → Faulty sys → P e (at n s)) where
  pub read_records-Gives :
      (ls : List Bytes) (es : List (AgentEvent V))
      (Q : List (PersistedAgentEvent V) → Disk → Type 0) (x : Option (Option EventSequence))
      (line n : ℕ)
      → Records codec x ls es
      → ((m : ℕ) → Q (map persisted es) (at m s))
      → Gives P Q (read_records codec sys line x (map ended ls) (at n s))
  unfolding read_records
  read_records-Gives [] [] Q x line n h g =
      Gives-bind P Q (attempt sys (read_record (suc line)) (at n s)) _
        (attempt-Gives sys s P bad (read_record (suc line)) _ n g)
  read_records-Gives [] (e ∷ es) Q x line n h g = absurd h
  read_records-Gives (l ∷ ls) [] Q x line n h g = absurd h
  read_records-Gives (l ∷ ls) (e ∷ es) Q x line n h g =
      Gives-bind P Q (attempt sys (read_record (suc line)) (at n s)) _ (
        attempt-Gives sys s P bad (read_record (suc line)) _ n λ m.
          rw (read_line-ok X codec (suc line) x l e h.0 h.1) (
            Gives-bind P Q
              (read_records codec sys (suc line) (some (next_expected (event_sequence e)))
                (map ended ls) (at m s))
              _
              (read_records-Gives ls es _ (some (next_expected (event_sequence e))) (suc line) m h.2
                g)))

-- The records that these lines make, if all are ended and decode in order.
abbrev pub Decodes :
    {V J : Type 0}
    → Codec V J
    → Option (Option EventSequence)
    → List Line
    → List (PersistedAgentEvent V)
    → Type 0
Decodes {V} codec x lns rs =
    (ls : List Bytes) × (es : List (AgentEvent V)) × (lns ≡ map ended ls)
    × (rs ≡ map persisted es)
    × Records codec x ls es

module _ {V X J : Type 0} (codec : Codec V J) (sys : System X) (s : Disk) where
  abbrev Any : EventStoreError V X J → Disk → Type 0
  Any e s' = Unit

  pub read_records_sound :
      (lns : List Line) (Q : List (PersistedAgentEvent V) → Disk → Type 0)
      (x : Option (Option EventSequence)) (line n : ℕ)
      → ((rs : List (PersistedAgentEvent V)) (m : ℕ) → Decodes codec x lns rs → Q rs (at m s))
      → Gives Any Q (read_records codec sys line x lns (at n s))
  unfolding read_records
  read_records_sound [] Q x line n g =
      Gives-bind Any Q (attempt sys (read_record (suc line)) (at n s)) _ (
        attempt-Gives sys s Any (λ e m f. tt) (read_record (suc line)) _ n
          λ m. g [] m ([], [], refl, refl, tt))
  read_records_sound ((l, t) ∷ lns) Q x line n g =
      Gives-bind Any Q (attempt sys (read_record (suc line)) (at n s)) _ (
        attempt-Gives sys s Any (λ e m f. tt) (read_record (suc line)) _ n
          λ m. Gives-bind Any Q (lift (read_line codec (suc line) x (l, t)) (at m s)) _ (
            Gives-outcome Any _ (read_line codec (suc line) x (l, t)) (at m s)
              (read_line-Returns X codec (suc line) x l t) (λ e q. tt)
              λ r q.
                let (e, ended_by, d, f, same) = read_line-inv X codec (suc line) x l t r q in
                Gives-bind Any Q
                  (read_records codec sys (suc line) (some (next_expected r.sequence)) lns (at m s))
                  _
                  (read_records_sound lns _ (some (next_expected r.sequence)) (suc line) m
                    λ rs m' (ls, es, k, k', records). g (r ∷ rs) m' (
                      l ∷ ls,
                      e ∷ es,
                      rw (ended_by, k) refl,
                      rw (same, k') refl,
                      (
                        d,
                        f,
                        subst (λ y. Records codec (some (next_expected y)) ls es)
                            (ap (λ y. y.sequence) same) records,
                      ),
                    ))))
