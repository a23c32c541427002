-- ===== src/Prelude/Keys.antt =====
-- Lists without repetition, and searches in a list after one write.
use Prim.Native.Nat.{ℕ, zero, suc}
use mathlib.Core.Path.{◌≡◌, refl, ap}
use mathlib.Core.Bool.{Bool, false, ◌||◌}
use mathlib.Core.List.{List, [], ◌∷◌, ◌++◌, map}
use mathlib.Core.Option.{some}
use native.Mathlib.Omega.{arith}
use young_agent.Prelude.Tests.{is_some}
use young_agent.Prelude.Equality.{Eq, ◌==◌}
use young_agent.Prelude.Lists.{get_elem?, set}
use young_agent.Prelude.Search.{any, find}
use young_agent.Prelude.Tables.{contains}

module _ {ℓ} {A : Type ℓ} ⦃e : Eq A⦄ where
  abbrev pub Distinct : List A → Type 0
  Distinct [] = Unit
  Distinct (x ∷ xs) = (contains xs x ≡ false) × Distinct xs

  pub contains-append :
      (xs : List A) (k a : A) → contains (xs ++ k ∷ []) a ≡ (contains xs a || a == k)
  contains-append [] k a = ground arith
  contains-append (x ∷ xs) k a = ground (arith, contains-append xs k a)

  pub Distinct-append :
      (xs : List A) (k : A) → Distinct xs → contains xs k ≡ false → Distinct (xs ++ k ∷ [])
  Distinct-append [] k d n = (refl, tt)
  Distinct-append (x ∷ xs) k d n = (
    ground (arith, contains-append xs k x, e.beq_iff x k, e.beq_iff k x, d.0),
    Distinct-append xs k d.1 (ground arith),
  )

module _ {ℓ κ} {A : Type ℓ} {B : Type κ} where
  -- A write that keeps the key keeps the list of keys.
  pub map-set :
      (f : A → B) (xs : List A) (i : ℕ) (x v : A)
      → get_elem? xs i ≡ some x
      → f v ≡ f x
      → map f (set xs i v) ≡ map f xs
  map-set f [] i x v g h = refl
  map-set f (y ∷ ys) zero x v g h = cc
  map-set f (y ∷ ys) (suc i) x v g h = ap (λ r. f y ∷ r) (map-set f ys i x v g h)

module _ {ℓ} {A : Type ℓ} (p : A → Bool) where
  pub any-find : (xs : List A) → is_some (find p xs) ≡ any p xs
  any-find [] = refl
  any-find (x ∷ xs) = ground (arith, any-find xs)

  pub any-set :
      (xs : List A) (i : ℕ) (x v : A)
      → get_elem? xs i ≡ some x
      → p x ≡ false
      → any p (set xs i v) ≡ (p v || any p xs)
  any-set [] i x v g h = cc
  any-set (y ∷ ys) zero x v g h = ground arith
  any-set (y ∷ ys) (suc i) x v g h = ground (arith, any-set ys i x v)

  pub any-set_same :
      (xs : List A) (i : ℕ) (x v : A)
      → get_elem? xs i ≡ some x
      → p v ≡ p x
      → any p (set xs i v) ≡ any p xs
  any-set_same [] i x v g h = refl
  any-set_same (y ∷ ys) zero x v g h = ground arith
  any-set_same (y ∷ ys) (suc i) x v g h = ground (arith, any-set_same ys i x v)

  pub any-append : (xs : List A) (v : A) → any p (xs ++ v ∷ []) ≡ (any p xs || p v)
  any-append [] v = ground arith
  any-append (y ∷ ys) v = ground (arith, any-append ys v)
