-- ===== src/Agent/Log/Triples.antt =====
-- An invariant that an action keeps, also where it fails, with what holds where it succeeds. Nothing is
-- said of a state after a panic.
use young_agent.Prelude.{Outcome, ok, err, panic}
use young_agent.Agent.Action.{Action, run_on, ◌>>=◌}

-- What holds afterwards is the invariant.
abbrev pub Stays : {S : Type 0} → (S → Type 0) → {A : Type 0} → A → S → Type 0
Stays P a s = P s

module _ {S E : Type 0} (P : S → Type 0) where
  abbrev pub Holds : {A : Type 0} → (A → S → Type 0) → Outcome E A × S → Type 0
  Holds Q (ok a, s) = Q a s
  Holds Q (err e, s) = P s
  Holds Q (panic, s) = Unit

  abbrev pub Meets : {A : Type 0} → (A → S → Type 0) → Action S E A → Type 0
  Meets Q m = (s : S) → P s → Holds Q (m s)

  run_on-Holds :
      {A B : Type 0} (R : A → S → Type 0) (Q : B → S → Type 0) (r : Outcome E A × S)
      (f : A → Action S E B)
      → Holds R r
      → ((a : A) (s : S) → R a s → Holds Q (f a s))
      → Holds Q (run_on r f)
  run_on-Holds R Q (ok a, s) f h k = k a s h
  run_on-Holds R Q (err e, s) f h k = h
  run_on-Holds R Q (panic, s) f h k = tt

  pub Meets-bind :
      {A B : Type 0} (R : A → S → Type 0) (Q : B → S → Type 0) (m : Action S E A)
      (f : A → Action S E B)
      → Meets R m
      → ((a : A) (s : S) → R a s → Holds Q (f a s))
      → Meets Q (m >>= f)
  Meets-bind R Q m f h k s p = run_on-Holds R Q (m s) f (h s p) k

  pub Holds-weaken :
      {A : Type 0} (R Q : A → S → Type 0) (r : Outcome E A × S)
      → ((a : A) (s : S) → R a s → Q a s)
      → Holds R r
      → Holds Q r
  Holds-weaken R Q (ok a, s) f h = f a s h
  Holds-weaken R Q (err e, s) f h = h
  Holds-weaken R Q (panic, s) f h = tt
