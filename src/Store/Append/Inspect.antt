-- ===== src/Store/Append/Inspect.antt =====
-- crates/event-store/src/jsonl.rs: how an append finds the last record, and its check of the number.
use young_agent.Prelude.{
  ℕ, ◌+◌, ◌-◌, ◌≡◌, refl, sym, ap, ◌∙◌, subst, Bool, true, false, Option, none, some, List, [], ◌∷◌,
  map, inl, inr, length, drop, eqb, Outcome, ok, err, arith, get_last?, if◌then◌else◌, is_some,
}
use mathlib.Core.List.{map-append}
use young_agent.Agent.Event.{AgentEvent, EventSequence, event_sequence}
use young_agent.Agent.Action.{◌>>=◌, ◌>>◌}
use young_agent.Store.Bytes.{Bytes, newline, take, log_of, last_newline, committed}
use young_agent.Store.Disk.{
  EventStoreError, inspect_for_append, unterminated_log, invalid_event_sequence, Codec, System,
  Disk, AppendFile, read_at, file_length, Store,
}
use young_agent.Store.Line.{decoded}
use young_agent.Store.Log.{Fits, expected_after, Lines, Records-length, persisted}
use young_agent.Store.Read.{lift, read_all_records_unlocked}
use young_agent.Store.Read.Back.{read_all_records_unlocked-Gives}
use young_agent.Store.Triples.{Gives, Gives-bind, at, Faulty, read_at-Gives, file_length-Gives}
use young_agent.Store.Tail.{is_terminated, search_back, read_last_event}
use young_agent.Store.Tail.Search.{search_back-Gives}
use young_agent.Store.Tail.Repair.{is_terminated-Gives}
use young_agent.Store.Append.{
  AppendPosition, empty, position_after, line_after, handle, set_handle, last_event,
  find_last_event, position_in, inspect_append_position, validate_append_sequence,
}
use young_agent.Store.Append.Place.{
  position_for, position_after-eq, check_position-Checked, Last, expected_after-append,
  get_last?-append, last_start, last_record, last_byte, Lines-cases, length-whole,
}

-- A handle that has validated the log has counted its lines.
abbrev pub Counts : AppendFile → List Bytes → Type 0
Counts f ls = f.fully_validated ≡ true → f.line_count ≡ length ls

abbrev pub validated : AppendFile → ℕ → AppendFile
validated f n = record f { line_count = n; fully_validated = true }

module _ {V X J : Type 0} (codec : Codec V J) (sys : System X) (start : Disk) (f : AppendFile)
    (ls : List Bytes) (es : List (AgentEvent V)) (h : Lines codec ls es) (counts : Counts f ls)
    (P : EventStoreError V X J → Disk → Type 0) where
  -- The state before, and after the handle has been validated.
  abbrev before : Disk
  before = record start { append_file = some f; log = some (log_of ls) }

  abbrev after : Disk
  after = record before { append_file = some (validated f (length ls)) }

  -- What the search and the read after it find.
  from_eq :
      (k : Last codec ls es)
      → committed (take (length (log_of ls) - 1) (log_of ls)) ≡ length (log_of k.before)
  from_eq k =
      subst (λ zs. committed (take (length (log_of zs) - 1) (log_of zs)) ≡ length (log_of k.before))
        (sym k.lines_eq) (last_start k.before k.line k.clean)

  record_eq :
      (k : Last codec ls es)
      → take
          (length (log_of ls) - length (log_of k.before) - 1)
          (drop (length (log_of k.before)) (log_of ls))
        ≡ k.line
  record_eq k =
      subst
        (λ zs.
          take (length (log_of zs) - length (log_of k.before) - 1)
            (drop (length (log_of k.before)) (log_of zs))
          ≡ k.line)
        (sym k.lines_eq) (last_record k.before k.line k.clean)

  size_eq :
      (k : Last codec ls es) → length (log_of ls) ≡ length (log_of k.before) + length k.line + 1
  size_eq k = ap (λ zs. length (log_of zs)) k.lines_eq ∙ length-whole k.before k.line k.clean

  byte_eq : (k : Last codec ls es) → drop (length (log_of ls) - 1) (log_of ls) ≡ newline ∷ []
  byte_eq k =
      subst (λ zs. drop (length (log_of zs) - 1) (log_of zs) ≡ newline ∷ []) (sym k.lines_eq)
        (last_byte k.before k.line k.clean)

  place_eq :
      (k : Last codec ls es)
      → position_after (event_sequence k.event) ≡ position_for (expected_after none es)
  place_eq k =
      position_after-eq (event_sequence k.event)
      ∙ ap position_for (
          sym (
            ap (expected_after none) k.events_eq
            ∙ expected_after-append none k.events_before k.event))

  -- Validating again changes nothing.
  same : f.fully_validated ≡ true → f ≡ validated f (length ls)
  same q =
      ap (λ b. record f { fully_validated = b }) q
      ∙ ap (λ n. record f { fully_validated = true; line_count = n }) (counts q)

  abbrev reread : Store V X J (AgentEvent V)
  reread = do
    records ← read_all_records_unlocked codec sys
    set_handle (some (validated f (length records)))
    lift (last_event records)

  end_of_all : (k : Last codec ls es) → get_last? (map persisted es) ≡ some (persisted k.event)
  end_of_all k =
      ap (λ zs. get_last? (map persisted zs)) k.events_eq
      ∙ ap get_last? (map-append persisted k.events_before (k.event ∷ []))
      ∙ get_last?-append (map persisted k.events_before) (persisted k.event)

  last_event_eq :
      (k : Last codec ls es)
      → ◌≡◌ {A = Outcome (EventStoreError V X J) (AgentEvent V)}
          (last_event (map persisted es))
          (ok k.event)
  last_event_eq k = rw (last_event, end_of_all k) refl

  module _ (bad : (e : EventStoreError V X J) (n : ℕ) → Faulty sys → P e (at n before)) where
    read_last_event-Gives :
        (k : Last codec ls es) (Q : AgentEvent V → Disk → Type 0) (n line : ℕ)
        → ((m : ℕ) → Q k.event (at m before))
        → Gives P Q (read_last_event codec sys (length (log_of ls)) line (at n before))
    unfolding read_last_event
    read_last_event-Gives k Q n line g =
        let size = length (log_of ls) in
        let from = length (log_of k.before) in
        Gives-bind P Q (search_back sys inspect_for_append (size - 1) (size - 1) (at n before)) _ (
          search_back-Gives sys before P bad inspect_for_append _ (size - 1) n (size - 1)
            (omega arith) (omega arith)
            λ m.
              subst
                (λ i. Gives P Q (
                  (read_at sys inspect_for_append i (size - i - 1) >>= λ bytes.
                  lift (decoded line (codec.from_slice bytes)))
                    (at m before)))
                (sym (from_eq k))
                (Gives-bind P Q
                  (read_at sys inspect_for_append from (size - from - 1) (at m before)) _
                  (read_at-Gives sys before P bad inspect_for_append _ m from (size - from - 1)
                    (omega (arith, size_eq k))
                    λ m'.
                      subst
                        (λ bytes. Gives P Q (decoded line (codec.from_slice bytes), at m' before))
                        (sym (record_eq k)) (rw k.decodes (g m')))))

    -- The two branches of the test on `fully_validated`.
    found_by :
        (k : Last codec ls es) (Q : AgentEvent V → Disk → Type 0) (n line : ℕ) (b : Bool)
        → f.fully_validated ≡ b
        → ((m : ℕ) → Q k.event (at m after))
        → Gives P Q (
            (if b then read_last_event codec sys (length (log_of ls)) line else reread)
              (at n before))
    found_by k Q n line true q g = read_last_event-Gives k Q n line λ m.
        subst
          (λ f'. Q k.event (at m (record start { append_file = some f'; log = some (log_of ls) })))
          (sym (same q)) (g m)
    found_by k Q n line false q g =
        Gives-bind P Q (read_all_records_unlocked codec sys (at n before)) _ (
          read_all_records_unlocked-Gives codec sys before P bad ls es _ n refl h λ m.
            subst
              (λ c. Gives P Q (
                last_event (map persisted es),
                at m (record before { append_file = some (validated f c) }),
              ))
              (sym (Records-length codec none ls es h.1))
              (subst (λ o. Gives P Q (o, at m after)) (sym (last_event_eq k)) (g m)))

    find_last_event-Gives :
        (k : Last codec ls es) (Q : AgentEvent V → Disk → Type 0) (n : ℕ)
        → ((m : ℕ) → Q k.event (at m after))
        → Gives P Q (find_last_event codec sys (length (log_of ls)) f (at n before))
    unfolding find_last_event
    find_last_event-Gives k Q n g = found_by k Q n _ f.fully_validated refl g

    position_in-Gives :
        (k : Last codec ls es) (Q : AppendPosition × ℕ → Disk → Type 0) (n : ℕ)
        → ((m : ℕ)
            → Q
                (
                  position_after (event_sequence k.event),
                  line_after (length ls) (event_sequence k.event),
                )
                (at m after))
        → Gives P Q (position_in codec sys (length (log_of ls)) f (at n before))
    unfolding position_in handle
    position_in-Gives k Q n g =
        Gives-bind P Q (find_last_event codec sys (length (log_of ls)) f (at n before)) _
          (find_last_event-Gives k _ n g)

    -- The place is the one for what the reader expects next.
    module _ (Q : AppendPosition × ℕ → Disk → Type 0)
        (g : (m line : ℕ) → Q (position_for (expected_after none es), line) (at m after)) where
      at_end :
          (n : ℕ)
          → Last codec ls es
          → Gives P Q (
              (is_terminated sys inspect_for_append (length (log_of ls)) >>= λ terminated.
              if terminated
              then position_in codec sys (length (log_of ls)) f
              else lift (err unterminated_log))
                (at n before))
      at_end n k =
          Gives-bind P Q (is_terminated sys inspect_for_append (length (log_of ls)) (at n before)) _
            (is_terminated-Gives sys before P bad inspect_for_append _ n (omega (arith, size_eq k))
              λ m.
                subst
                  (λ bytes. Gives P Q (
                    (if is_some (last_newline (take 1 bytes))
                        then position_in codec sys (length (log_of ls)) f
                        else lift (err unterminated_log))
                      (at m before)))
                  (sym (byte_eq k))
                  (position_in-Gives k Q m λ m'.
                    subst
                      (λ p. Q (p, line_after (length ls) (event_sequence k.event)) (at m' after))
                      (sym (place_eq k)) (g m' _)))

      pub inspect_append_position-Gives :
          (n : ℕ) → Gives P Q (inspect_append_position codec sys (at n before))
      unfolding inspect_append_position handle
      inspect_append_position-Gives n =
          Gives-bind P Q (file_length sys inspect_for_append (at n before)) _ (
            file_length-Gives sys before P bad inspect_for_append _ n λ m.
              elim (Lines-cases codec ls es h) [
                | inl (no_lines, no_events) ↦
                    let no_bytes : eqb (length (log_of ls)) 0 ≡ true =
                      ap (λ zs. eqb (length (log_of zs)) 0) no_lines in
                    rw no_bytes (
                      subst
                        (λ c.
                          Q (empty, 1)
                            (at m (record before { append_file = some (validated f c) })))
                        (ap length no_lines)
                        (subst (λ zs. Q (position_for (expected_after none zs), 1) (at m after))
                          no_events (g m 1)))
                | inr k ↦
                    let some_bytes : eqb (length (log_of ls)) 0 ≡ false =
                      ground (arith, size_eq k) in
                    rw some_bytes (at_end m k)
              ])

    pub validate_append_sequence-Gives :
        (found : Option EventSequence) (Q : Unit {0} → Disk → Type 0) (n : ℕ)
        → ((m line : ℕ) (expected : Option EventSequence)
            → (Fits (expected_after none es) found → ⊥)
            → P (invalid_event_sequence line expected found) (at m after))
        → ((m : ℕ) → Fits (expected_after none es) found → Q tt (at m after))
        → Gives P Q (validate_append_sequence codec sys found (at n before))
    unfolding validate_append_sequence
    validate_append_sequence-Gives found Q n refused g =
        Gives-bind P Q (inspect_append_position codec sys (at n before)) _ (
          inspect_append_position-Gives _
            (λ m line. elim (check_position-Checked V X J (expected_after none es) line found) [
              | inl (q, fits) ↦ rw q (g m fits)
              | inr (expected, q, misfit) ↦ rw q (refused m line expected misfit)
            ])
            n)
