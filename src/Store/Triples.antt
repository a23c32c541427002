-- ===== src/Store/Triples.antt =====
-- What a call of the operating system gives, and what holds when it fails.
use young_agent.Prelude.{
  ℕ, suc, ◌+◌, ◌≤◌, ◌≡◌, none, some, length, drop, eqb, eqb_iff, true, Outcome, ok, err, panic,
  arith, Option-cases, inl, inr,
}
pub use young_agent.Agent.Action.Gives.{
  Gives, Gives-bind, Gives-weaken, Gives-outcome, Returns, Returns-bind,
}
use young_agent.Store.Bytes.{Bytes, take, length-take, length-drop}
use young_agent.Store.Read.{release}
use young_agent.Store.Disk.{
  EventStoreError, System, Disk, bytes_of, attempt, read_at, file_length, open_existing,
}

-- The same store after some calls that only read.
abbrev pub at : ℕ → Disk → Disk
at n s = record s { clock = n }

-- Some call of the operating system fails.
abbrev pub Faulty : {X : Type 0} → System X → Type 0
Faulty {X} sys = (n : ℕ) × (x : X) × (sys.fails n ≡ some x)

module _ {V X J : Type 0} (sys : System X) (s : Disk) (P : EventStoreError V X J → Disk → Type 0)
    (bad : (e : EventStoreError V X J) (n : ℕ) → Faulty sys → P e (at n s)) where
  pub attempt-Gives :
      (wrap : X → EventStoreError V X J) (Q : Unit {0} → Disk → Type 0) (n : ℕ)
      → ((m : ℕ) → Q tt (at m s))
      → Gives P Q (attempt sys wrap (at n s))
  unfolding attempt
  attempt-Gives wrap Q n g = elim (Option-cases (sys.fails n)) [
    | inl q ↦ rw q (g (suc n))
    | inr (x, q) ↦ rw q (bad (wrap x) (suc n) (n, x, q))
  ]

  pub read_at-Gives :
      (wrap : X → EventStoreError V X J) (Q : Bytes → Disk → Type 0) (n start k : ℕ)
      → start + k ≤ length (bytes_of s.log)
      → ((m : ℕ) → Q (take k (drop start (bytes_of s.log))) (at m s))
      → Gives P Q (read_at sys wrap start k (at n s))
  unfolding read_at
  read_at-Gives wrap Q n start k h g =
      let bytes = bytes_of s.log in
      let fits : eqb (length (take k (drop start bytes))) k ≡ true =
        (eqb_iff _ k).1
          (length-take k (drop start bytes) (omega (arith, length-drop start bytes))) in
      Gives-bind P Q (attempt sys wrap (at n s)) _ (
        attempt-Gives wrap _ n λ m.
          Gives-bind P Q (attempt sys wrap (at m s)) _
            (attempt-Gives wrap _ m λ m'. rw fits (g m')))

  pub file_length-Gives :
      (wrap : X → EventStoreError V X J) (Q : ℕ → Disk → Type 0) (n : ℕ)
      → ((m : ℕ) → Q (length (bytes_of s.log)) (at m s))
      → Gives P Q (file_length sys wrap (at n s))
  unfolding file_length
  file_length-Gives wrap Q n g =
      Gives-bind P Q (attempt sys wrap (at n s)) _ (attempt-Gives wrap _ n g)

  -- The file is there.
  pub open_existing-Gives :
      (wrap : X → EventStoreError V X J) (Q : Unit {0} → Disk → Type 0) (n : ℕ) (bytes : Bytes)
      → s.log ≡ some bytes
      → ((m : ℕ) → Q tt (at m s))
      → Gives P Q (open_existing sys wrap (at n s))
  unfolding open_existing
  open_existing-Gives wrap Q n bytes e g =
      Gives-bind P Q (attempt sys wrap (at n s)) _ (attempt-Gives wrap _ n λ m. rw e (g m))

pub open_existing-missing :
    {V X J : Type 0} (sys : System X) (P : EventStoreError V X J → Disk → Type 0)
    (Q : Unit {0} → Disk → Type 0) (wrap : X → EventStoreError V X J) (s : Disk) (n : ℕ)
    → s.log ≡ none
    → ((e : EventStoreError V X J) (m : ℕ) → P e (at m s))
    → Gives P Q (open_existing sys wrap (at n s))
unfolding open_existing
open_existing-missing sys P Q wrap s n e bad =
    Gives-bind P Q (attempt sys wrap (at n s)) _
      (attempt-Gives sys s P (λ x m f. bad x m) wrap _ n λ m. rw e (bad _ m))

-- The clock does not matter to what holds.
abbrev pub Untimed : {A : Type 0} → (A → Disk → Type 0) → Type 0
Untimed {A} Q = (a : A) (s : Disk) (n : ℕ) → Q a s → Q a (at n s)

module _ {V X J : Type 0} (sys : System X) (P : EventStoreError V X J → Disk → Type 0) where
  pub release-Gives :
      {A : Type 0} (Q : A → Disk → Type 0) (wrap : X → EventStoreError V X J)
      (r : Outcome (EventStoreError V X J) A × Disk)
      → Untimed P
      → Untimed Q
      → ((a : A) (s : Disk) (e : EventStoreError V X J) → Faulty sys → Q a s → P e s)
      → Gives P Q r
      → Gives P Q (release sys wrap r)
  unfolding release attempt
  release-Gives Q wrap (ok a, s) p q f h = elim (Option-cases (sys.fails s.clock)) [
    | inl none_fails ↦ rw none_fails (q a s _ h)
    | inr (x, fails) ↦ rw fails (p (wrap x) s _ (f a s (wrap x) (s.clock, x, fails) h))
  ]
  release-Gives Q wrap (err e, s) p q f h = p e s _ h
  release-Gives Q wrap (panic, s) p q f h = h
