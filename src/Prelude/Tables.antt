-- ===== src/Prelude/Tables.antt =====
-- `HashMap`, `HashSet` and `BTreeMap` with their keys compared by `==`. The programs never read the
-- order of a hash table.
use mathlib.Core.Path.{◌≡◌, refl}
use mathlib.Core.Logic.{inl, inr}
use mathlib.Core.Bool.{Bool, false, not, ◌||◌, ◌&&◌}
use native.Mathlib.Omega.{arith}
use mathlib.Core.List.{List, [], ◌∷◌}
use mathlib.Core.Option.{Option, none, some}
use young_agent.Prelude.Tests.{if◌then◌else◌, Bool-cases}
use young_agent.Prelude.Equality.{Eq, ◌==◌}

module _ {ℓ} {A : Type ℓ} ⦃e : Eq A⦄ where
  abbrev pub contains : List A → A → Bool
  contains [] a = false
  contains (x ∷ xs) a = a == x || contains xs a

  abbrev pub insert : A → List A → List A
  insert a xs = if contains xs a then xs else a ∷ xs

  abbrev pub remove : A → List A → List A
  remove a [] = []
  remove a (x ∷ xs) = let rest = remove a xs in if a == x then rest else x ∷ rest

module _ {ℓ κ} {K : Type ℓ} {V : Type κ} ⦃e : Eq K⦄ where
  abbrev pub lookup : K → List (K × V) → Option V
  lookup k [] = none
  lookup k ((j, v) ∷ m) = if k == j then some v else lookup k m

  abbrev pub put : K → V → List (K × V) → List (K × V)
  put k v [] = (k, v) ∷ []
  put k v ((j, w) ∷ m) = if k == j then (k, v) ∷ m else (j, w) ∷ put k v m

module _ {ℓ} {A : Type ℓ} ⦃e : Eq A⦄ where
  pub contains-insert :
      (a b : A) (xs : List A) → contains (insert a xs) b ≡ (b == a || contains xs b)
  contains-insert a b xs = elim (Bool-cases (contains xs a)) [
    | inl old ↦ rw old (ground (arith, e.beq_iff b a, old))
    | inr new ↦ rw new
  ]

  pub contains-remove :
      (a b : A) (xs : List A) → contains (remove a xs) b ≡ (not (b == a) && contains xs b)
  contains-remove a b [] = ground arith
  contains-remove a b (x ∷ xs) =
      ground (arith, contains-remove a b xs, e.beq_iff b a, e.beq_iff b x, e.beq_iff a x)

module _ {ℓ κ} {K : Type ℓ} {V : Type κ} ⦃e : Eq K⦄ where
  pub lookup-put :
      (j k : K) (v : V) (m : List (K × V))
      → lookup j (put k v m) ≡ (if j == k then some v else lookup j m)
  lookup-put j k v [] = refl
  lookup-put j k v ((i, w) ∷ m) =
      ground (arith, lookup-put j k v m, e.beq_iff j k, e.beq_iff j i, e.beq_iff k i)
