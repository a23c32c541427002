-- ===== src/Store/Read/Back.antt =====
-- crates/event-store/src/jsonl.rs: reading gives back the events of a log, and of nothing else.
use young_agent.Prelude.{
  ℕ, ◌≡◌, refl, sym, ap, ◌∙◌, subst, none, some, List, [], ◌∷◌, map, inl, inr, option_eq, nat_eq,
  Option-cases,
}
use young_agent.Agent.Event.{AgentEvent}
use young_agent.Agent.Action.{◌>>◌}
use young_agent.Store.Bytes.{Bytes, lines, log_of}
use young_agent.Store.Lines.{ended, lines-log_of, lines-ended}
use young_agent.Store.Disk.{
  EventStoreError, open_for_read, lock_for_read, Codec, System, Disk, bytes_of, attempt,
  open_existing,
}
use young_agent.Store.Triples.{
  release-Gives, Gives-weaken, Gives, Gives-bind, at, Faulty, attempt-Gives, open_existing-Gives,
  open_existing-missing,
}
use young_agent.Store.Line.{PersistedAgentEvent}
use young_agent.Store.Log.{Records, Lines, IsLog, persisted}
use young_agent.Store.Read.{
  unlocking, read_records, read_all_records_from, read_all_records_unlocked, read_all_records,
  read_all,
}
use young_agent.Store.Read.Records.{Decodes, read_records-Gives, read_records_sound}

module _ {V X J : Type 0} (codec : Codec V J) (sys : System X) (s : Disk)
    (P : EventStoreError V X J → Disk → Type 0)
    (bad : (e : EventStoreError V X J) (n : ℕ) → Faulty sys → P e (at n s)) where
  pub read_all_records_from-Gives :
      (ls : List Bytes) (es : List (AgentEvent V))
      (Q : List (PersistedAgentEvent V) → Disk → Type 0) (n : ℕ)
      → s.log ≡ some (log_of ls)
      → Lines codec ls es
      → ((m : ℕ) → Q (map persisted es) (at m s))
      → Gives P Q (read_all_records_from codec sys (at n s))
  unfolding read_all_records_from
  read_all_records_from-Gives ls es Q n e h g =
      let same : map ended ls ≡ lines (bytes_of s.log) = rw e (sym (lines-log_of ls h.0)) in
      subst (λ lns. Gives P Q (read_records codec sys 0 none lns (at n s))) same
        (read_records-Gives codec sys s P bad ls es Q none 0 n h.1 g)

  pub read_all_records_unlocked-Gives :
      (ls : List Bytes) (es : List (AgentEvent V))
      (Q : List (PersistedAgentEvent V) → Disk → Type 0) (n : ℕ)
      → s.log ≡ some (log_of ls)
      → Lines codec ls es
      → ((m : ℕ) → Q (map persisted es) (at m s))
      → Gives P Q (read_all_records_unlocked codec sys (at n s))
  unfolding read_all_records_unlocked
  read_all_records_unlocked-Gives ls es Q n e h g =
      Gives-bind P Q (open_existing sys open_for_read (at n s)) _ (
        open_existing-Gives sys s P bad open_for_read _ n (log_of ls) e
          λ m. read_all_records_from-Gives ls es Q m e h g)

-- An error comes from a call that fails, and leaves the log as it was.
abbrev pub Unread : {X : Type 0} → System X → Bytes → Disk → Type 0
Unread sys bytes s = Faulty sys × (s.log ≡ some bytes)

module _ {V X J : Type 0} (codec : Codec V J) (sys : System X) (s : Disk) (ls : List Bytes)
    (es : List (AgentEvent V)) (e : s.log ≡ some (log_of ls)) (h : Lines codec ls es) where
  abbrev Bad : EventStoreError V X J → Disk → Type 0
  Bad x = Unread sys (log_of ls)

  abbrev Good : List (PersistedAgentEvent V) → Disk → Type 0
  Good rs s' = (rs ≡ map persisted es) × (s'.log ≡ some (log_of ls))

  pub read_all_records-Gives : Gives Bad Good (read_all_records codec sys s)
  unfolding read_all_records
  read_all_records-Gives = Gives-bind Bad Good (open_existing sys open_for_read (at s.clock s)) _ (
      open_existing-Gives sys s Bad (λ x n f. (f, e)) open_for_read _ s.clock (log_of ls) e
        λ m. Gives-bind Bad Good (attempt sys lock_for_read (at m s)) _ (
          attempt-Gives sys s Bad (λ x n f. (f, e)) lock_for_read _ m
            λ m'.
              release-Gives sys Bad Good lock_for_read (read_all_records_from codec sys (at m' s))
                (λ x s' n k. k) (λ rs s' n k. k) (λ rs s' x f k. (f, k.1))
                (read_all_records_from-Gives codec sys s Bad (λ x n f. (f, e)) ls es Good m' e h
                  λ m''. (refl, e))))

map-persisted : {V : Type 0} (es : List (AgentEvent V)) → map (λ r. r.event) (map persisted es) ≡ es
map-persisted [] = refl
map-persisted (e ∷ es) = ap (λ rest. e ∷ rest) (map-persisted es)

-- The events of a log are read back, unless a call of the operating system fails.
pub read_all-returns :
    {V X J : Type 0} (codec : Codec V J) (sys : System X) (s : Disk) (bytes : Bytes)
    (es : List (AgentEvent V))
    → s.log ≡ some bytes
    → IsLog codec bytes es
    → Gives
        (λ x. Unread sys bytes)
        (λ events s'. (events ≡ es) × (s'.log ≡ some bytes))
        (read_all codec sys s)
unfolding read_all
read_all-returns codec sys s bytes es e (ls, q, h) =
    let e' = e ∙ ap some q in
    Gives-bind _ _ (read_all_records codec sys s) _ (
      Gives-weaken _ _ _ _ (read_all_records codec sys s) (λ x s' k. (k.0, k.1 ∙ ap some (sym q)))
        (λ rs s' k. (ap (map (λ r. r.event)) k.0 ∙ map-persisted es, k.1 ∙ ap some (sym q)))
        (read_all_records-Gives codec sys s ls es e' h))

module _ {V X J : Type 0} (codec : Codec V J) (sys : System X) (s : Disk) where
  abbrev Any : EventStoreError V X J → Disk → Type 0
  Any e s' = Unit

  abbrev Read : List (PersistedAgentEvent V) → Disk → Type 0
  Read rs s' = Decodes codec none (lines (bytes_of s.log)) rs

  opened-Read :
      (n : ℕ)
      → Gives (Any) Read (
          (do
            open_existing sys open_for_read
            attempt sys lock_for_read
            unlocking sys lock_for_read (read_all_records_from codec sys))
            (at n s))
  unfolding read_all_records_from
  opened-Read n =
      let locked : (m : ℕ)
          → Gives (Any) Read (
              (do
                attempt sys lock_for_read
                unlocking sys lock_for_read (read_all_records_from codec sys))
                (at m s)) =
        λ m. Gives-bind (Any) Read (attempt sys lock_for_read (at m s)) _ (
          attempt-Gives sys s (Any) (λ x k f. tt) lock_for_read _ m
            λ m'.
              release-Gives sys (Any) Read lock_for_read (read_all_records_from codec sys (at m' s))
                (λ x s' k h. tt) (λ rs s' k h. h) (λ rs s' x f h. tt)
                (read_records_sound codec sys s (lines (bytes_of s.log)) Read none 0 m'
                  λ rs k h. h)) in
      Gives-bind (Any) Read (open_existing sys open_for_read (at n s)) _
        (elim (Option-cases s.log) [
          | inl q ↦ open_existing-missing sys (Any) _ open_for_read s n q λ x m. tt
          | inr (bytes, q) ↦
              open_existing-Gives sys s (Any) (λ x k f. tt) open_for_read _ n bytes q locked
        ])

  IsLog-of_lines :
      (rs : List (PersistedAgentEvent V))
      → Decodes codec none (lines (bytes_of s.log)) rs
      → IsLog codec (bytes_of s.log) (map (λ r. r.event) rs)
  IsLog-of_lines rs (ls, es, q, k, records) =
      let (b, c) = lines-ended (bytes_of s.log) ls q in
      (
        ls,
        b,
        (
          c,
          subst (Records codec none ls) (sym (ap (map (λ r. r.event)) k ∙ map-persisted es))
              records,
        ),
      )

-- What is read without an error are the events of a log, whatever the bytes were and whatever fails.
pub read_all-IsLog :
    {V X J : Type 0} (codec : Codec V J) (sys : System X) (s : Disk)
    → Gives
        (λ (x : EventStoreError V X J) s'. Unit {0})
        (λ es s'. IsLog codec (bytes_of s.log) es)
        (read_all codec sys s)
unfolding read_all read_all_records
read_all-IsLog codec sys s = Gives-bind _ _ (read_all_records codec sys s) _ (
    Gives-weaken _ _ _ _ (read_all_records codec sys s) (λ x s' k. tt)
      (λ rs s' k. IsLog-of_lines codec sys s rs k) (opened-Read codec sys s s.clock))
