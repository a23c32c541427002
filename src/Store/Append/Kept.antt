-- ===== src/Store/Append/Kept.antt =====
-- crates/event-store/src/jsonl.rs: what one append leaves of the log, whatever fails.
use young_agent.Prelude.{
  ℕ, suc, ◌≡◌, ◌⊎◌, refl, sym, ap, ◌∙◌, Bool, true, false, Option, none, some, List, ◌++◌, inl, inr,
  length, Option-cases, if◌then◌else◌,
}
use mathlib.Core.List.{append-nil}
use young_agent.Agent.Event.{AgentEvent, EventSequence}
use young_agent.Agent.Action.{pure, ◌>>=◌, ◌>>◌}
use young_agent.Store.Bytes.{Bytes, log_of, take, take-length_self}
use young_agent.Store.Disk.{
  EventStoreError, invalid_event_sequence, Codec, System, Disk, AppendFile, attempt, write_all,
  Store,
}
use young_agent.Store.Log.{Fits, expected_after, Lines}
use young_agent.Store.Triples.{Gives, Gives-bind, Gives-weaken, at, Faulty, attempt-Gives}
use young_agent.Store.Append.{
  handle, set_handle, validate_append_sequence, make_durable, write_record,
}
use young_agent.Store.Append.Inspect.{Counts, validated, validate_append_sequence-Gives}
use young_agent.Store.Append.Written.{IsDurable, Named, make_durable-Gives}

module _ {V X J : Type 0} (codec : Codec V J) (sys : System X) (ls : List Bytes)
    (es : List (AgentEvent V)) (h : Lines codec ls es) (bytes : Bytes)
    (found : Option EventSequence) where
  -- The record has a number that the reader would refuse.
  abbrev pub Misfit : EventStoreError V X J → Type 0
  Misfit x =
      (line : ℕ) × (expected : Option EventSequence) × (x
        ≡ invalid_event_sequence line expected found)
      × (Fits (expected_after none es) found → ⊥)

  -- A call that fails leaves a part of the record behind the log; a misfit leaves the log.
  abbrev pub Unwritten : EventStoreError V X J → Disk → Type 0
  Unwritten x s =
      (Faulty sys
        × (n : ℕ) × (s.log ≡ some (log_of ls ++ take n bytes))
        × ((n ≡ 0) ⊎ Fits (expected_after none es) found))
      ⊎ (Misfit x × (s.log ≡ some (log_of ls)))

  abbrev pub Recorded : Bool → Unit {0} → Disk → Type 0
  Recorded is_durable u s =
      (f : AppendFile) × (s.append_file ≡ some f)
      × (s.log ≡ some (log_of ls ++ bytes))
      × (f.line_count ≡ suc (length ls))
      × Named f s.entry_stable
      × (is_durable ≡ true → IsDurable s)
      × Fits (expected_after none es) found

  at_log :
      (s : Disk)
      → Faulty sys
      → s.log ≡ some (log_of ls)
      → (e : EventStoreError V X J) → Unwritten e s
  at_log s flt q e = inl (flt, 0, q ∙ ap some (sym (append-nil (log_of ls))), inl refl)

  pub at_written :
      (s : Disk) (e : EventStoreError V X J)
      → Faulty sys
      → s.log ≡ some (log_of ls ++ bytes)
      → Fits (expected_after none es) found
      → Unwritten e s
  at_written s e flt q fits = inl (
    flt,
    length bytes,
    q ∙ ap (λ b. some (log_of ls ++ b)) (sym (take-length_self bytes)),
    inr fits,
  )

  module _ (start : Disk) (f : AppendFile) (counts : Counts f ls)
      (named : Named f start.entry_stable) (is_durable : Bool) where
    abbrev before : Disk
    before = record start { append_file = some f; log = some (log_of ls) }

    abbrev after : Disk
    after = record before { append_file = some (validated f (length ls)) }

    abbrev wrote : Disk
    wrote = record after { log = some (log_of ls ++ bytes) }

    abbrev count_line : Store V X J (Unit {0})
    count_line = do g ← handle; set_handle (some (record g { line_count = suc g.line_count }))

    finish_by :
        (b : Bool) (n : ℕ)
        → Fits (expected_after none es) found
        → Gives Unwritten
            (Recorded b)
            (((if b then make_durable sys else pure tt) >> count_line) (at n wrote))
    unfolding handle
    finish_by true n fits = Gives-bind Unwritten (Recorded true) (make_durable sys (at n wrote)) _ (
        Gives-weaken Unwritten Unwritten _ _ (make_durable sys (at n wrote)) (λ e s p. p)
          (λ u s (g, q, l, d, c, v). rw q (_, refl, l, ap suc c, (λ k. d.1), (λ k. d), fits))
          (make_durable-Gives sys after (validated f (length ls)) (log_of ls ++ bytes) named
            Unwritten (λ e s flt l. at_written s e flt l fits) n))
    finish_by false n fits = (_, refl, refl, refl, named, (λ k. cc), fits)

    pub write_record-Gives :
        (n : ℕ)
        → Gives Unwritten
            (Recorded is_durable)
            (write_record codec sys found bytes is_durable (at n before))
    unfolding write_record write_all
    write_record-Gives n =
        let wrap = EventStoreError.append in
        Gives-bind Unwritten (Recorded is_durable)
          (validate_append_sequence codec sys found (at n before)) _
          (validate_append_sequence-Gives codec sys start f ls es h counts Unwritten
            (λ e k flt. at_log (at k before) flt refl e) found _ n
            (λ m line expected misfit. inr ((line, expected, refl, misfit), refl))
            λ m fits. elim (Option-cases (sys.fails m)) [
              | inr (x, q) ↦ rw q (inl ((m, x, q), sys.partly m, refl, inr fits))
              | inl q ↦ rw q (
                  Gives-bind Unwritten (Recorded is_durable) (attempt sys wrap (at (suc m) wrote)) _
                    (attempt-Gives sys wrote Unwritten
                      (λ e k flt. at_written (at k wrote) e flt refl fits) wrap _ (suc m)
                      λ m'. finish_by is_durable m' fits))
            ])
