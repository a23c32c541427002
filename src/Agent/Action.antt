-- ===== src/Agent/Action.antt =====
-- Code that reads and changes a state and may fail: the state is kept where it fails.
pub mod Gives
use young_agent.Prelude.{Outcome, ok, err, panic}

abbrev pub Action : Type 0 → Type 0 → Type 0 → Type 0
Action S E A = S → Outcome E A × S

module _ {S E : Type 0} where
  abbrev pub pure : {A : Type 0} → A → Action S E A
  pure a s = (ok a, s)

  abbrev pub run_on : {A B : Type 0} → Outcome E A × S → (A → Action S E B) → Outcome E B × S
  run_on (ok a, s) f = f a s
  run_on (err e, s) f = (err e, s)
  run_on (panic, s) f = (panic, s)

  infixl 5 ◌>>=◌ ◌>>◌
  abbrev pub ◌>>=◌ : {A B : Type 0} → Action S E A → (A → Action S E B) → Action S E B
  (m >>= f) s = run_on (m s) f

  abbrev pub ◌>>◌ : {B : Type 0} → Action S E (Unit {0}) → Action S E B → Action S E B
  m >> k = m >>= λ _. k

  abbrev pub fail : {A : Type 0} → E → Action S E A
  fail e s = (err e, s)
