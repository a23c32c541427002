-- ===== src/Store/Append/Whole.antt =====
-- crates/event-store/src/jsonl.rs: one append to a log that the store is ready for.
use young_agent.Prelude.{
  ℕ, ◌≡◌, ◌⊎◌, refl, sym, ap, ◌∙◌, subst, Bool, true, false, Option, none, some, List, [], ◌∷◌,
  ◌++◌, inl, inr, Outcome, ok, err, panic, length-append, arith,
}
use young_agent.Agent.Event.{AgentEvent, event_sequence}
use young_agent.Agent.Action.{◌>>◌}
use young_agent.Store.Bytes.{Bytes, newline, IsClean, log_of, take}
use young_agent.Store.Lines.{log_of-append}
use young_agent.Store.Disk.{
  EventStoreError, open_for_append, inspect_for_append, Codec, System, Disk, AppendFile, bytes_of,
  attempt, open_or_create, created, create_if_missing, Store,
}
use young_agent.Store.Log.{Fits, expected_after, Lines, Lines-append}
use young_agent.Store.Triples.{Gives, Gives-bind, at, Faulty, attempt-Gives, release-Gives}
use young_agent.Store.Read.{unlocking}
use young_agent.Store.Append.{
  new_append_file, forget_on_error, write_record, ensure_append_file, append_record,
}
use young_agent.Store.Append.Inspect.{Counts}
use young_agent.Store.Append.Written.{IsDurable, Named}
use young_agent.Store.Append.Kept.{Misfit, Unwritten, Recorded, write_record-Gives, at_written}

-- What an open handle knows of the log is true.
abbrev pub HandleOf : List Bytes → Disk → Type 0
HandleOf ls s =
    (f : AppendFile)
    → s.append_file ≡ some f
    → (s.log ≡ some (log_of ls)) × Counts f ls × Named f s.entry_stable

-- The file has the log of these events, and the handle agrees.
abbrev pub Ready : {V J : Type 0} → Codec V J → List Bytes → List (AgentEvent V) → Disk → Type 0
Ready codec ls es s = Lines codec ls es × (bytes_of s.log ≡ log_of ls) × HandleOf ls s

-- A part of the record, which is none of it unless it fits, stands behind the log, and the next append
-- opens the file again.
abbrev pub Torn : List Bytes → Bytes → Type 0 → Disk → Type 0
Torn ls bytes Fitting s =
    (s.append_file ≡ none)
    × (n : ℕ) × (s.log ≡ some (log_of ls ++ take n bytes))
    × ((n ≡ 0) ⊎ Fitting)

forget_on_error-Gives :
    {V X J : Type 0} (P P' : EventStoreError V X J → Disk → Type 0)
    (Q Q' : Unit {0} → Disk → Type 0) (r : Outcome (EventStoreError V X J) (Unit {0}) × Disk)
    → ((e : EventStoreError V X J) (s : Disk) → P e s → P' e (record s { append_file = none }))
    → ((u : Unit {0}) (s : Disk) → Q u s → Q' u s)
    → Gives P Q r
    → Gives P' Q' (forget_on_error r)
forget_on_error-Gives P P' Q Q' (ok u, s) f g h = g u s h
forget_on_error-Gives P P' Q Q' (err e, s) f g h = f e s h
forget_on_error-Gives P P' Q Q' (panic, s) f g h = h

module _ {V X J : Type 0} (codec : Codec V J) (sys : System X) (ls : List Bytes)
    (es : List (AgentEvent V)) (h : Lines codec ls es) (line : Bytes) (e : AgentEvent V)
    (clean : IsClean line) (decodes : codec.from_slice line ≡ inr e) (is_durable : Bool) where
  abbrev bytes : Bytes
  bytes = line ++ newline ∷ []

  abbrev pub Failed : EventStoreError V X J → Disk → Type 0
  Failed x s =
      (Faulty sys
        × (Ready codec ls es s
            ⊎ Torn ls bytes (Fits (expected_after none es) (event_sequence e)) s))
      ⊎ (Misfit codec sys ls es h bytes (event_sequence e) x × Ready codec ls es s)

  abbrev pub Appended : Unit {0} → Disk → Type 0
  Appended u s =
      Fits (expected_after none es) (event_sequence e)
      × Ready codec (ls ++ line ∷ []) (es ++ e ∷ []) s
      × (is_durable ≡ true → IsDurable s)

  forget-Failed :
      (x : EventStoreError V X J) (s : Disk)
      → Unwritten codec sys ls es h bytes (event_sequence e) x s
      → Failed x (record s { append_file = none })
  forget-Failed x s (inl (flt, n, q, k)) = inl (flt, inr (refl, n, q, k))
  forget-Failed x s (inr (misfit, q)) = inr (misfit, (h, ap bytes_of q, λ f k. absurd (cc)))

  add-Appended :
      (u : Unit {0}) (s : Disk)
      → Recorded codec sys ls es h bytes (event_sequence e) is_durable u s
      → Appended u s
  add-Appended u s (f, q, l, c, named, d, fits) =
      let log_eq = l ∙ ap some (sym (log_of-append ls line)) in
      (
        fits,
        (
          Lines-append codec ls es line e h clean decodes fits,
          ap bytes_of log_eq,
          λ f' q'.
              let same : f ≡ f' = cc in
              (
                log_eq,
                (λ k.
                    ap (λ g. g.line_count) (sym same)
                    ∙ omega (arith, c, length-append ls (line ∷ []))),
                subst (λ g. Named g s.entry_stable) same named,
              ),
        ),
        d,
      )

  abbrev locked_write : Store V X J (Unit {0})
  locked_write = do
    attempt sys inspect_for_append
    λ s. forget_on_error (
        unlocking sys EventStoreError.append
          (write_record codec sys (event_sequence e) bytes is_durable) s)

  module _ (start : Disk) (f : AppendFile) (counts : Counts f ls)
      (named : Named f start.entry_stable) where
    abbrev before : Disk
    before = record start { append_file = some f; log = some (log_of ls) }

    before-Ready : (n : ℕ) → Ready codec ls es (at n before)
    before-Ready n = (
      h,
      refl,
      λ f' q.
          let same : f ≡ f' = cc in
          (
            refl,
            subst (λ g. Counts g ls) same counts,
            subst (λ g. Named g start.entry_stable) same named,
          ),
    )

    locked_write-Gives : (n : ℕ) → Gives Failed Appended (locked_write (at n before))
    locked_write-Gives n =
        Gives-bind Failed Appended (attempt sys inspect_for_append (at n before)) _ (
          attempt-Gives sys before Failed (λ x k flt. inl (flt, inl (before-Ready k)))
            inspect_for_append _ n
            λ m. forget_on_error-Gives _ Failed _ Appended _ forget-Failed add-Appended (
              release-Gives sys (Unwritten codec sys ls es h bytes (event_sequence e))
                (Recorded codec sys ls es h bytes (event_sequence e) is_durable)
                EventStoreError.append
                (write_record codec sys (event_sequence e) bytes is_durable (at m before))
                (λ x s k p. p) (λ u s k p. p)
                (λ u s x flt p.
                  at_written codec sys ls es h bytes (event_sequence e) s x flt p.2 p.6)
                (write_record-Gives codec sys ls es h bytes (event_sequence e) start f counts named
                  is_durable m)))

  -- An open handle: the store is one of those above.
  open_Gives :
      (s : Disk) (f : AppendFile)
      → s.append_file ≡ some f
      → Ready codec ls es s
      → Gives Failed Appended (locked_write s)
  open_Gives s f q r =
      let (l, counts, named) = r.2 f q in
      subst (λ o. Gives Failed Appended (locked_write (record s { append_file = o }))) (sym q)
        (subst
          (λ o. Gives Failed Appended (locked_write (record s { append_file = some f; log = o })))
          (sym l) (locked_write-Gives s f counts named s.clock))

  -- A fresh handle on the file that was there, or on the empty one that was made.
  fresh_Gives :
      (s : Disk)
      → s.log ≡ some (log_of ls)
      → Gives Failed Appended
          (locked_write (record s { append_file = some (new_append_file false) }))
  fresh_Gives s l =
      subst
        (λ o.
          Gives Failed Appended
            (locked_write (record s { append_file = some (new_append_file false); log = o })))
        (sym l) (locked_write-Gives s (new_append_file false) (λ k. cc) (λ k. cc) s.clock)

  -- The two cases of the file at the path.
  opened_by :
      (s : Disk) (o : Option Bytes) (n : ℕ)
      → bytes_of o ≡ log_of ls
      → Gives Failed Appended (
          locked_write (record (create_if_missing o (at n (record s { log = o }))) {
            append_file = some (new_append_file false);
          }))
  opened_by s none n b = fresh_Gives (created (at n s)) (ap some b)
  opened_by s (some content) n b =
      fresh_Gives (record s { log = some content; clock = n }) (ap some b)

  closed-Ready :
      (s : Disk) (n : ℕ)
      → bytes_of s.log ≡ log_of ls
      → s.append_file ≡ none
      → Ready codec ls es (at n s)
  closed-Ready s n b q = (h, b, λ f k. absurd (cc))

  -- The two cases of the test on `append_file`.
  ensured_by :
      (s : Disk) (o : Option AppendFile)
      → s.append_file ≡ o
      → Ready codec ls es s
      → Gives Failed
          (λ u s'. Gives Failed Appended (locked_write s'))
          (ensure_append_file sys (record s { append_file = o }))
  unfolding ensure_append_file open_or_create
  ensured_by s (some f) q r =
      open_Gives (record s { append_file = some f }) f refl
        (subst (λ o. Ready codec ls es (record s { append_file = o })) q r)
  ensured_by s none q r =
      let closed = record s { append_file = none } in
      Gives-bind Failed _ (open_or_create sys open_for_append closed) _ (
        Gives-bind Failed _ (attempt sys open_for_append closed) _ (
          attempt-Gives sys closed Failed
            (λ x k flt. inl (flt, inl (closed-Ready closed k r.1 refl))) open_for_append _ s.clock
            λ m. opened_by closed s.log m r.1))

  pub append_record-Gives :
      (s : Disk)
      → Ready codec ls es s
      → Gives Failed Appended (append_record codec sys (event_sequence e) bytes is_durable s)
  unfolding append_record
  append_record-Gives s r =
      Gives-bind Failed Appended (ensure_append_file sys s) _ (ensured_by s s.append_file refl r)
