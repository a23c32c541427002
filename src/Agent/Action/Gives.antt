-- ===== src/Agent/Action/Gives.antt =====
-- What an action gives: a result with `Q`, or an error with `P`, and no panic.
use young_agent.Prelude.{◌≡◌, refl, Outcome, ok, err, panic, ◌>>=◌}
use young_agent.Agent.Action.{Action, run_on}

module _ {S E A : Type 0} (P : E → S → Type 0) where
  abbrev pub Gives : (A → S → Type 0) → Outcome E A × S → Type 0
  Gives Q (ok a, s) = Q a s
  Gives Q (err e, s) = P e s
  Gives Q (panic, s) = ⊥

module _ {S E A B : Type 0} (P : E → S → Type 0) (Q : B → S → Type 0) where
  pub Gives-bind :
      (r : Outcome E A × S) (f : A → Action S E B)
      → Gives P (λ a s. Gives P Q (f a s)) r
      → Gives P Q (run_on r f)
  Gives-bind (ok a, s) f h = h
  Gives-bind (err e, s) f h = h
  Gives-bind (panic, s) f h = h

-- A result or an error, but no panic.
abbrev pub Returns : {E A : Type 0} → Outcome E A → Type 0
Returns (ok a) = Unit
Returns (err e) = Unit
Returns panic = ⊥

pub Returns-bind :
    {E A B : Type 0} (m : Outcome E A) (f : A → Outcome E B)
    → Returns m
    → ((a : A) → Returns (f a))
    → Returns (m >>= f)
Returns-bind (ok a) f h g = g a
Returns-bind (err e) f h g = tt
Returns-bind panic f h g = h

pub Gives-outcome :
    {S E A : Type 0} (P : E → S → Type 0) (Q : A → S → Type 0) (o : Outcome E A) (s : S)
    → Returns o
    → ((e : E) → o ≡ err e → P e s)
    → ((a : A) → o ≡ ok a → Q a s)
    → Gives P Q (o, s)
Gives-outcome P Q (ok a) s r f g = g a refl
Gives-outcome P Q (err e) s r f g = f e refl
Gives-outcome P Q panic s r f g = r

pub Gives-weaken :
    {S E A : Type 0} (P P' : E → S → Type 0) (Q Q' : A → S → Type 0) (r : Outcome E A × S)
    → ((e : E) (s : S) → P e s → P' e s)
    → ((a : A) (s : S) → Q a s → Q' a s)
    → Gives P Q r
    → Gives P' Q' r
Gives-weaken P P' Q Q' (ok a, s) f g h = g a s h
Gives-weaken P P' Q Q' (err e, s) f g h = f e s h
Gives-weaken P P' Q Q' (panic, s) f g h = h
