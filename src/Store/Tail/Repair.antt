-- ===== src/Store/Tail/Repair.antt =====
-- crates/event-store/src/jsonl.rs: what `repair_truncated_tail` leaves of a log.
use young_agent.Prelude.{
  ℕ, ◌+◌, ◌-◌, ◌≤◌, ◌<◌, ◌≡◌, ◌⊎◌, refl, sym, ap, ◌∙◌, subst, Bool, none, some, length, drop, eqb,
  eqb_iff, is_some, if◌then◌else◌, arith, split, Option-cases, inl, inr,
}
use young_agent.Agent.Action.{pure, ◌>>◌}
use young_agent.Store.Bytes.{
  Bytes, take, take-length_self, last_newline, committed, last_newline-lt,
}
use young_agent.Store.Lines.{committed-some, committed-none}
use young_agent.Store.Disk.{
  EventStoreError, System, Disk, bytes_of, attempt, set_len, sync_data, open_existing,
  open_for_repair, repair_tail, file_length, read_at,
}
use young_agent.Store.Triples.{
  Gives, Gives-bind, at, Faulty, attempt-Gives, file_length-Gives, open_existing-Gives,
  read_at-Gives,
}
use young_agent.Store.Tail.{is_terminated, cut_tail, search_back, repair_truncated_tail}
use young_agent.Store.Tail.Search.{search_back-Gives, committed-chunk_some}

pub committed-le : (bytes : Bytes) → committed bytes ≤ length bytes
committed-le bytes = elim (Option-cases (last_newline bytes)) [
  | inl q ↦ omega (arith, committed-none bytes q)
  | inr (i, q) ↦ omega (arith, committed-some bytes q, last_newline-lt bytes i q)
]

-- All is committed when the last byte is a newline.
committed-terminated :
    (bytes : Bytes) (i : ℕ)
    → 0 < length bytes
    → last_newline (take 1 (drop (length bytes - 1) bytes)) ≡ some i
    → committed bytes ≡ length bytes
committed-terminated bytes i h q =
    let n = length bytes - 1 in
    let whole : take (n + 1) bytes ≡ bytes =
      ap (λ k. take k bytes) (omega arith) ∙ take-length_self bytes in
    let c : committed bytes ≡ n + i + 1 =
      sym (ap committed whole) ∙ committed-chunk_some bytes n 1 i (omega arith) q in
    omega (arith, committed-le bytes, c)

module _ {V X J : Type 0} (sys : System X) (s : Disk) (P : EventStoreError V X J → Disk → Type 0)
    (bad : (e : EventStoreError V X J) (n : ℕ) → Faulty sys → P e (at n s)) where
  pub is_terminated-Gives :
      (wrap : X → EventStoreError V X J) (Q : Bool → Disk → Type 0) (n : ℕ)
      → 0 < length (bytes_of s.log)
      → ((m : ℕ)
          → Q
              (is_some
                (last_newline (take 1 (drop (length (bytes_of s.log) - 1) (bytes_of s.log)))))
              (at m s))
      → Gives P Q (is_terminated sys wrap (length (bytes_of s.log)) (at n s))
  unfolding is_terminated
  is_terminated-Gives wrap Q n h g =
      let size = length (bytes_of s.log) in
      Gives-bind P Q (read_at sys wrap (size - 1) 1 (at n s)) _
        (read_at-Gives sys s P bad wrap _ n (size - 1) 1 (omega arith) g)

-- The error of a repair leaves the log as it was, or as the repair makes it.
abbrev pub Unrepaired : {X : Type 0} → System X → Bytes → Disk → Type 0
Unrepaired sys bytes s =
    Faulty sys × ((s.log ≡ some bytes) ⊎ (s.log ≡ some (take (committed bytes) bytes)))

abbrev pub Repaired : Bytes → ℕ → Disk → Type 0
Repaired bytes removed s =
    (s.log ≡ some (take (committed bytes) bytes))
    × (removed ≡ length bytes - committed bytes)
    × (s.append_file ≡ none)

module _ (V J : Type 0) {X : Type 0} (sys : System X) (start : Disk) (bytes : Bytes) where
  abbrev Bad : EventStoreError V X J → Disk → Type 0
  Bad e = Unrepaired sys bytes

  abbrev opened : Disk
  opened = record start { append_file = none; log = some bytes }

  abbrev cut : Disk
  cut = record opened { log = some (take (committed bytes) bytes) }

  synced :
      (n : ℕ)
      → Gives Bad
          (Repaired bytes)
          ((sync_data sys repair_tail >> pure (length bytes - committed bytes)) (at n cut))
  unfolding sync_data
  synced n = Gives-bind Bad (Repaired bytes) (sync_data sys repair_tail (at n cut)) _ (
      Gives-bind Bad _ (attempt sys repair_tail (at n cut)) _ (
        attempt-Gives sys cut Bad (λ e k f. (f, inr refl)) repair_tail _ n λ m. (refl, refl, refl)))

  cut_tail-Gives : (n : ℕ) → Gives Bad (Repaired bytes) (cut_tail sys (length bytes) (at n opened))
  unfolding cut_tail set_len sync_data
  cut_tail-Gives n =
      Gives-bind Bad (Repaired bytes)
        (search_back sys repair_tail (length bytes) (length bytes) (at n opened)) _
        (search_back-Gives sys opened Bad (λ e k f. (f, inl refl)) repair_tail _ (length bytes) n
          (length bytes) (omega arith) (omega arith)
          λ m. rw (take-length_self bytes) (
            Gives-bind Bad (Repaired bytes)
              (set_len sys repair_tail (committed bytes) (at m opened)) _
              (Gives-bind Bad _ (attempt sys repair_tail (at m opened)) _ (
                attempt-Gives sys opened Bad (λ e k f. (f, inl refl)) repair_tail _ m
                  λ m'. synced m'))))

  -- Nothing is to be repaired where all is committed.
  whole : (n : ℕ) → committed bytes ≡ length bytes → Repaired bytes 0 (at n opened)
  whole n h =
      (ap some (sym (ap (λ k. take k bytes) h ∙ take-length_self bytes)), omega (arith, h), refl)

  abbrev last_byte : Bytes
  last_byte = take 1 (drop (length bytes - 1) bytes)

  end_or_cut :
      (n : ℕ)
      → 0 < length bytes
      → Gives Bad (Repaired bytes) (
          (if is_some (last_newline last_byte) then pure 0 else cut_tail sys (length bytes))
            (at n opened))
  end_or_cut n h = elim (Option-cases (last_newline last_byte)) [
    | inl q ↦ rw q (cut_tail-Gives n)
    | inr (i, q) ↦ rw q (whole n (committed-terminated bytes i h q))
  ]

  repair-Gives :
      Gives Bad (Repaired bytes) (repair_truncated_tail sys (record start { log = some bytes }))
  unfolding repair_truncated_tail
  repair-Gives =
      Gives-bind Bad (Repaired bytes) (open_existing sys open_for_repair (at start.clock opened)) _
        (open_existing-Gives sys opened Bad (λ e k f. (f, inl refl)) open_for_repair _ start.clock
          bytes refl
          λ m. Gives-bind Bad (Repaired bytes) (file_length sys repair_tail (at m opened)) _ (
            file_length-Gives sys opened Bad (λ e k f. (f, inl refl)) repair_tail _ m
              λ m'.
                split (eqb (length bytes) 0)
                  (λ z. rw z (whole m' (omega (arith, committed-le bytes, (eqb_iff _ 0).0 z))))
                  λ z. rw z (
                    Gives-bind Bad (Repaired bytes)
                      (is_terminated sys repair_tail (length bytes) (at m' opened)) _
                      (is_terminated-Gives sys opened Bad (λ e k f. (f, inl refl)) repair_tail _ m'
                        (ground arith) λ m''. end_or_cut m'' (ground arith)))))

-- Whatever the log is, a repair keeps what is committed of it.
pub repair_truncated_tail-committed :
    (V J : Type 0) {X : Type 0} (sys : System X) (s : Disk) (bytes : Bytes)
    → s.log ≡ some bytes
    → Gives
        (λ (e : EventStoreError V X J). Unrepaired sys bytes)
        (Repaired bytes)
        (repair_truncated_tail sys s)
repair_truncated_tail-committed V J sys s bytes e =
    subst
      (λ l.
        Gives (Bad V J sys s bytes) (Repaired bytes)
          (repair_truncated_tail sys (record s { log = l })))
      (sym e) (repair-Gives V J sys s bytes)
