-- ===== src/Store/RoundTrip.antt =====
-- crates/event-store/src/jsonl.rs: reading back what was appended, and the first append of a new log.
use young_agent.Prelude.{
  ℕ, ◌≡◌, refl, sym, ap, ◌∙◌, subst, Bool, true, false, Option, none, some, List, [], ◌∷◌, ◌++◌,
  inl, inr, ◌⊎◌, length, Outcome, ok, err, panic, arith, length-append, Option-cases,
}
use young_agent.Agent.Event.{AgentEvent, EventSequence, event_sequence}
use young_agent.Agent.Action.{◌>>◌}
use young_agent.Store.Bytes.{Bytes, log_of}
use young_agent.Store.Disk.{
  EventStoreError, attempt, open_new, open_for_append, Codec, System, Disk, bytes_of,
}
use young_agent.Store.Log.{Fits, expected_after, Lines}
use young_agent.Store.Triples.{Gives, Gives-bind, Gives-weaken, Faulty, attempt-Gives}
use young_agent.Store.Read.{read_all}
use young_agent.Store.Read.Back.{read_all-returns}
use young_agent.Store.Append.{stamped, or_own, append_with_durability, create_new, new_append_file}
use young_agent.Store.Append.Written.{Named}
use young_agent.Store.Append.Inspect.{Counts}
use young_agent.Store.Append.Place.{Lines-cases, length-whole}
use young_agent.Store.Guarantees.{
  ReadsBack, IsReady, NotAppended, append_with_durability-IsAppended, event_sequence-stamped,
}

result-of_Gives :
    {E A : Type 0} (v : A) (r : Outcome E A × Disk) → Gives (λ x s. ⊥) (λ a s. a ≡ v) r → r.0 ≡ ok v
result-of_Gives v (ok a, s) h = ap ok h
result-of_Gives v (err e, s) h = absurd h
result-of_Gives v (panic, s) h = absurd h

-- A log with a record is in a file that is there.
file_there :
    {V J : Type 0} (codec : Codec V J) (ls : List Bytes) (es : List (AgentEvent V))
    (e : AgentEvent V) (o : Option Bytes)
    → Lines codec ls (es ++ e ∷ [])
    → bytes_of o ≡ log_of ls
    → o ≡ some (log_of ls)
file_there codec ls es e (some bytes) h q = ap some q
file_there codec ls es e none h q = elim (Lines-cases codec ls (es ++ e ∷ []) h) [
  | inl (no_lines, no_events) ↦ absurd (
      let size : length (es ++ e ∷ []) ≡ 0 = ap length no_events in
      omega (arith, length-append es (e ∷ []), size))
  | inr k ↦ absurd (
      let size : 0 ≡ length (log_of (k.before ++ k.line ∷ [])) =
        ap length q ∙ ap (λ zs. length (log_of zs)) k.lines_eq in
      omega (arith, size, length-whole k.before k.line k.clean))
]

not_refused :
    {V X J : Type 0} (codec : Codec V J) (sys : System X) (es : List (AgentEvent V))
    (e : AgentEvent V) (x : EventStoreError V X J) (s : Disk) (line : Bytes)
    → (Faulty sys → ⊥)
    → codec.to_vec e ≡ inr line
    → Fits (expected_after none es) (event_sequence e)
    → NotAppended codec sys es e x s
    → ⊥
not_refused codec sys es e x s line quiet enc fits (inr (flt, torn)) = quiet flt
not_refused codec sys es e x s line quiet enc fits (inl (inr (inr flt), r)) = quiet flt
not_refused codec sys es e x s line quiet enc fits (inl (inr (inl (n, y, q, misfit)), r)) =
    misfit fits
not_refused codec sys es e x s line quiet enc fits (inl (inl (source, q, k), r)) =
    let both = sym q ∙ enc in cc

-- Where no call fails, an event that is encoded in a way that is read back, and whose number fits, is appended, and reading the log
-- returns the events that were there with this one behind them.
pub append_with_durability-read_all :
    {V X J : Type 0} (codec : Codec V J) (sys : System X) (es : List (AgentEvent V)) (s : Disk)
    (o : Option EventSequence) (e : AgentEvent V) (is_durable : Bool) (line : Bytes)
    → ReadsBack codec (stamped (or_own o e) e)
    → IsReady codec sys es s
    → ((n : ℕ) → sys.fails n ≡ none)
    → codec.to_vec (stamped (or_own o e) e) ≡ inr line
    → Fits (expected_after none es) (or_own o e)
    → ((append_with_durability codec sys o e is_durable >> read_all codec sys) s).0
      ≡ ok (es ++ stamped (or_own o e) e ∷ [])
append_with_durability-read_all codec sys es s o e is_durable line reads_back ready quiet enc fits =
    let e' = stamped (or_own o e) e in
    let no_fault : Faulty sys → ⊥ = λ (n, x, q). let k = sym (quiet n) ∙ q in cc in
    result-of_Gives (es ++ e' ∷ []) _ (
      Gives-bind _ _ (append_with_durability codec sys o e is_durable s) _ (
        Gives-weaken _ _ _ _ (append_with_durability codec sys o e is_durable s)
          (λ x s' p. absurd (
            not_refused codec sys es e' x s' line no_fault enc
              (subst (Fits (expected_after none es)) (sym (event_sequence-stamped o e)) fits) p))
          (λ u s' p.
            let (ls, r) = p.1 in
            Gives-weaken _ _ _ _ (read_all codec sys s') (λ x s'' k. no_fault k.0)
              (λ es' s'' k. k.0)
              (read_all-returns codec sys s' (log_of ls) (es ++ e' ∷ [])
                (file_there codec ls es e' s'.log r.0 r.1) (ls, refl, r.0)))
          (append_with_durability-IsAppended codec sys es s o e is_durable reads_back ready)))

-- Why no log is made: a call fails, or a file is at the path, as the system says. The store stays as it was.
abbrev pub NotCreated : {V X J : Type 0} → System X → Disk → EventStoreError V X J → Disk → Type 0
NotCreated sys s x s' =
    (Faulty sys
      ⊎ ((bytes : Bytes) × (s.log ≡ some bytes) × (x ≡ open_for_append sys.already_exists)))
    × (s'.log ≡ s.log)
    × (s'.append_file ≡ s.append_file)

-- A new log is made where no file is at the path, unless a call fails, and it is ready without events;
-- where a file is at the path already, or a call fails, that is the error, and nothing of the file changes.
pub create_new-IsReady :
    {V X J : Type 0} (codec : Codec V J) (sys : System X) (s : Disk)
    → Gives
        (NotCreated {V = V} {X = X} {J = J} sys s)
        (λ u s'. (s.log ≡ none) × IsReady codec sys [] s')
        (create_new sys s)
unfolding create_new open_new
create_new-IsReady codec sys s = Gives-bind _ _ (open_new sys open_for_append s) _ (
    Gives-bind _ _ (attempt sys open_for_append s) _ (
      attempt-Gives sys s _ (λ x n flt. (inl flt, refl, refl)) open_for_append _ s.clock
        λ n. elim (Option-cases s.log) [
          | inr (bytes, q) ↦ rw q (inr (bytes, refl, refl), q, refl)
          | inl q ↦ rw q (
            refl,
            (
              [],
              (
                (tt, tt),
                refl,
                λ f k.
                    let same : new_append_file true ≡ f = cc in
                    (
                      refl,
                      subst (λ g. Counts g []) same (λ z. refl),
                      subst (λ g. Named g false) same (λ z. cc),
                    ),
              ),
            ),
          )
        ]))
