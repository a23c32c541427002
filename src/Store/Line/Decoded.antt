-- ===== src/Store/Line/Decoded.antt =====
-- crates/event-store/src/jsonl.rs: what a line decodes to, and when it is refused.
use young_agent.Prelude.{
  ℕ, ◌≡◌, refl, sym, Bool, true, false, not, Option, none, some, ◌⊎◌, inl, inr, Outcome, ok, eqb,
  eqb_iff, reject_if, option_eq, option_beq_iff, nat_eq, ◌==◌, split, >>=-eq-ok, ok-injective,
}
use young_agent.Agent.Event.{AgentEvent, EventSequence, event_sequence}
use young_agent.Store.Bytes.{Bytes}
use young_agent.Store.Lines.{ended}
use young_agent.Store.Disk.{EventStoreError, truncated_record, Codec}
use young_agent.Store.Triples.{Returns, Returns-bind}
use young_agent.Store.Line.{PersistedAgentEvent, check_expected, read_line, decoded}
use young_agent.Store.Log.{Fits, persisted}

reject_if-false :
    {E : Type 0} {b : Bool} (e : E)
    → b ≡ true
    → ◌≡◌ {A = Outcome E (Unit {0})} (reject_if b e) (ok tt)
    → ⊥
reject_if-false {b = true} e q h = cc
reject_if-false {b = false} e q h = cc

reject_if-ok :
    {E : Type 0} (b : Bool) (e : E) {u : Unit {0}}
    → ◌≡◌ {A = Outcome E (Unit {0})} (reject_if b e) (ok u)
    → b ≡ false
reject_if-ok true e h = cc
reject_if-ok false e h = refl

reject_if-Returns : {E : Type 0} (b : Bool) (e : E) → Returns (reject_if b e)
reject_if-Returns true e = tt
reject_if-Returns false e = tt

not-false : (t : Bool) → not t ≡ false → t ≡ true
not-false true h = refl
not-false false h = cc

module _ (V X J : Type 0) where
  abbrev checked :
      ℕ
      → Option (Option EventSequence)
      → Option EventSequence
      → Outcome (EventStoreError V X J) (Unit {0})
  checked = check_expected

  check_expected-ok :
      (line : ℕ) (x : Option (Option EventSequence)) (found : Option EventSequence)
      → Fits x found
      → checked line x found ≡ ok tt
  check_expected-ok line none none h = refl
  check_expected-ok line none (some n) h = rw ((eqb_iff n 1).1 h)
  check_expected-ok line (some x) found h = rw ((option_beq_iff found x).1 h)

  check_expected-Returns :
      (line : ℕ) (x : Option (Option EventSequence)) (found : Option EventSequence)
      → Returns (checked line x found)
  check_expected-Returns line none none = tt
  check_expected-Returns line none (some n) = reject_if-Returns (not (eqb n 1)) _
  check_expected-Returns line (some x) found = reject_if-Returns (not (found == x)) _

  Fits-of_check :
      (line : ℕ) (x : Option (Option EventSequence)) (found : Option EventSequence)
      → checked line x found ≡ ok tt
      → Fits x found
  Fits-of_check line none none h = tt
  Fits-of_check line none (some n) h =
      split (eqb n 1) (λ q. (eqb_iff n 1).0 q) λ q. absurd (reject_if-false _ (rw q refl) h)
  Fits-of_check line (some x) found h =
      split (found == x) (λ q. (option_beq_iff found x).0 q)
        λ q. absurd (reject_if-false _ (rw q refl) h)

module _ {V J : Type 0} (X : Type 0) (codec : Codec V J) where
  decoded-inv :
      (line : ℕ) (m : J ⊎ AgentEvent V) (e : AgentEvent V)
      → decoded {X = X} line m ≡ ok e
      → m ≡ inr e
  decoded-inv line (inl x) e h = cc
  decoded-inv line (inr e') e h = cc

  decoded-Returns : (line : ℕ) (m : J ⊎ AgentEvent V) → Returns (decoded {X = X} line m)
  decoded-Returns line (inl x) = tt
  decoded-Returns line (inr e) = tt

  pub read_line-ok :
      (line : ℕ) (x : Option (Option EventSequence)) (l : Bytes) (e : AgentEvent V)
      → codec.from_slice l ≡ inr e
      → Fits x (event_sequence e)
      → read_line {X = X} codec line x (ended l) ≡ ok (persisted e)
  unfolding read_line
  read_line-ok line x l e d f = rw (d, check_expected-ok V X J line x (event_sequence e) f) refl

  pub read_line-Returns :
      (line : ℕ) (x : Option (Option EventSequence)) (l : Bytes) (t : Bool)
      → Returns (read_line {X = X} codec line x (l, t))
  unfolding read_line
  read_line-Returns line x l t =
      Returns-bind (decoded line (codec.from_slice l)) _ (decoded-Returns line (codec.from_slice l))
        λ e.
          Returns-bind (check_expected line x (event_sequence e)) _
            (check_expected-Returns V X J line x (event_sequence e))
            λ u.
              Returns-bind (reject_if (not t) (truncated_record line)) _
                (reject_if-Returns (not t) (truncated_record line)) λ u'. tt

  pub read_line-inv :
      (line : ℕ) (x : Option (Option EventSequence)) (l : Bytes) (t : Bool)
      (r : PersistedAgentEvent V)
      → read_line {X = X} codec line x (l, t) ≡ ok r
      → (e : AgentEvent V) × (t ≡ true)
        × (codec.from_slice l ≡ inr e)
        × Fits x (event_sequence e)
        × (r ≡ persisted e)
  unfolding read_line
  read_line-inv line x l t r h =
      let (e, q, h') = >>=-eq-ok (decoded line (codec.from_slice l)) _ h in
      let (u, q', h'') = >>=-eq-ok (check_expected line x (event_sequence e)) _ h' in
      let (u', q'', k) = >>=-eq-ok (reject_if (not t) (truncated_record line)) _ h'' in
      let same : r ≡ persisted e = sym (ok-injective k) in
      (
        e,
        not-false t (reject_if-ok (not t) (truncated_record line) q''),
        decoded-inv line (codec.from_slice l) e q,
        Fits-of_check V X J line x (event_sequence e) q',
        same,
      )
