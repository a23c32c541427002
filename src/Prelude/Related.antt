-- ===== src/Prelude/Related.antt =====
-- Relating two fallible runs, and two lists element by element.
use mathlib.Core.Path.{◌≡◌, refl, subst}
use mathlib.Core.List.{List, [], ◌∷◌, ◌++◌}
use mathlib.Core.Option.{some}
use Prim.Native.Nat.{ℕ, zero, suc}
use native.Mathlib.Omega.{arith}
use young_agent.Prelude.Lists.{length, get_elem?, set}
use young_agent.Prelude.Fallible.{Outcome, ok, err, ◌>>=◌, collect}

-- Both runs return related values, or both fail with one error; neither panics.
pub data Both {E A B : Type 0} (R : A → B → Type 0) : Outcome E A → Outcome E B → Type 0 where
  both_ok : {a : A} {b : B} → R a b → Both R (ok a) (ok b)
  both_err : (e : E) → Both R (err e) (err e)

module _ {E A B C D : Type 0} {R : A → B → Type 0} {S : C → D → Type 0} where
  pub Both-bind :
      {m : Outcome E A} {n : Outcome E B} (f : A → Outcome E C) (g : B → Outcome E D)
      → Both R m n
      → ((a : A) (b : B) → R a b → Both S (f a) (g b))
      → Both S (m >>= f) (n >>= g)
  Both-bind f g (both_ok r) h = h _ _ r
  Both-bind f g (both_err e) h = both_err e

abbrev pub Pairs : {A B : Type 0} → (A → B → Type 0) → List A → List B → Type 0
Pairs R [] [] = Unit
Pairs R [] (y ∷ ys) = ⊥
Pairs R (x ∷ xs) [] = ⊥
Pairs R (x ∷ xs) (y ∷ ys) = R x y × Pairs R xs ys

module _ {A B : Type 0} (R : A → B → Type 0) where
  pub Pairs-length : (xs : List A) (ys : List B) → Pairs R xs ys → length xs ≡ length ys
  Pairs-length [] [] h = refl
  Pairs-length [] (y ∷ ys) h = absurd h
  Pairs-length (x ∷ xs) [] h = absurd h
  Pairs-length (x ∷ xs) (y ∷ ys) h = omega (arith, Pairs-length xs ys h.1)

  -- At a position of the second list the first has a related element.
  pub Pairs-get_elem? :
      (xs : List A) (ys : List B) (i : ℕ) (y : B)
      → Pairs R xs ys
      → get_elem? ys i ≡ some y
      → (x : A) × (get_elem? xs i ≡ some x) × R x y
  Pairs-get_elem? xs [] i y h g = cc
  Pairs-get_elem? [] (b ∷ ys) i y h g = absurd h
  Pairs-get_elem? (a ∷ xs) (b ∷ ys) zero y h g = (a, refl, subst (R a) (cc) h.0)
  Pairs-get_elem? (a ∷ xs) (b ∷ ys) (suc i) y h g = Pairs-get_elem? xs ys i y h.1 g

  pub Pairs-set :
      (xs : List A) (ys : List B) (i : ℕ) (x : A) (y : B)
      → Pairs R xs ys
      → R x y
      → Pairs R (set xs i x) (set ys i y)
  Pairs-set [] [] i x y h r = tt
  Pairs-set [] (b ∷ ys) i x y h r = absurd h
  Pairs-set (a ∷ xs) [] i x y h r = absurd h
  Pairs-set (a ∷ xs) (b ∷ ys) zero x y h r = (r, h.1)
  Pairs-set (a ∷ xs) (b ∷ ys) (suc i) x y h r = (h.0, Pairs-set xs ys i x y h.1 r)

  pub Pairs-append :
      (xs : List A) (ys : List B) (x : A) (y : B)
      → Pairs R xs ys
      → R x y
      → Pairs R (xs ++ x ∷ []) (ys ++ y ∷ [])
  Pairs-append [] [] x y h r = (r, tt)
  Pairs-append [] (b ∷ ys) x y h r = absurd h
  Pairs-append (a ∷ xs) [] x y h r = absurd h
  Pairs-append (a ∷ xs) (b ∷ ys) x y h r = (h.0, Pairs-append xs ys x y h.1 r)

pub collect-eq :
    {E A B : Type 0} (f : A → Outcome E B) (xs : List A) (ys : List B)
    → Pairs (λ x y. f x ≡ ok y) xs ys
    → collect f xs ≡ ok ys
collect-eq f [] [] h = refl
collect-eq f [] (y ∷ ys) h = absurd h
collect-eq f (x ∷ xs) [] h = absurd h
collect-eq f (x ∷ xs) (y ∷ ys) h = rw (h.0, collect-eq f xs ys h.1)

pub Pairs-map_imp :
    {A B : Type 0} (R S : A → B → Type 0) (xs : List A) (ys : List B)
    → ((x : A) (y : B) → R x y → S x y)
    → Pairs R xs ys
    → Pairs S xs ys
Pairs-map_imp R S [] [] f h = tt
Pairs-map_imp R S [] (y ∷ ys) f h = h
Pairs-map_imp R S (x ∷ xs) [] f h = h
Pairs-map_imp R S (x ∷ xs) (y ∷ ys) f h = (f x y h.0, Pairs-map_imp R S xs ys f h.1)

-- A run that fails, or returns a value with `P`.
pub data Ensures {E A : Type 0} (P : A → Type 0) : Outcome E A → Type 0 where
  ensured : {a : A} → P a → Ensures P (ok a)
  failing : (x : E) → Ensures P (err x)

pub Ensures-ok :
    {E A : Type 0} {P : A → Type 0} {m : Outcome E A} {a : A} → Ensures P m → m ≡ ok a → P a
Ensures-ok {P} (ensured p) e = subst P (cc) p
Ensures-ok (failing x) e = absurd (cc)

pub Ensures-bind :
    {E A B : Type 0} {P : A → Type 0} {Q : B → Type 0} {m : Outcome E A} (f : A → Outcome E B)
    → Ensures P m
    → ((a : A) → P a → Ensures Q (f a))
    → Ensures Q (m >>= f)
Ensures-bind f (ensured p) h = h _ p
Ensures-bind f (failing x) h = failing x
