-- ===== src/Prelude/Search.antt =====
-- The first element of a list that passes a test: its position, its value, and a change of it.
use Prim.Native.Nat.{ℕ, zero, suc}
use mathlib.Core.Path.{◌≡◌, refl}
use mathlib.Core.Logic.{inl, inr}
use mathlib.Core.Bool.{Bool, true, false, ◌||◌}
use mathlib.Core.List.{List, [], ◌∷◌, ◌++◌}
use mathlib.Core.Option.{Option, none, some}
use native.Mathlib.Omega.{arith}
use young_agent.Prelude.Tests.{if◌then◌else◌, Bool-cases}
use young_agent.Prelude.Lists.{length, get_elem?, set}

abbrev pub shift : Option ℕ → Option ℕ
shift none = none
shift (some i) = some (suc i)

module _ {ℓ} {A : Type ℓ} where
  abbrev pub any : (A → Bool) → List A → Bool
  any p [] = false
  any p (x ∷ xs) = p x || any p xs

  abbrev pub find : (A → Bool) → List A → Option A
  find p [] = none
  find p (x ∷ xs) = if p x then some x else find p xs

  abbrev pub adjust : (A → Bool) → (A → A) → List A → List A
  adjust p f [] = []
  adjust p f (x ∷ xs) = if p x then f x ∷ xs else x ∷ adjust p f xs

  abbrev pub find_index : (A → Bool) → List A → Option ℕ
  find_index p [] = none
  find_index p (x ∷ xs) = if p x then some 0 else shift (find_index p xs)

-- Where a search by `p` ends: nowhere, or at a position with its element.
pub data Found {ℓ} {A : Type ℓ} (p : A → Bool) (xs : List A) : Type ℓ where
  missing : find_index p xs ≡ none → find p xs ≡ none → Found p xs
  found :
      (i : ℕ) (x : A)
      → find_index p xs ≡ some i
      → find p xs ≡ some x
      → get_elem? xs i ≡ some x
      → p x ≡ true
      → Found p xs

module _ {ℓ} {A : Type ℓ} (p : A → Bool) where
  Found-there : (x : A) (xs : List A) → p x ≡ false → Found p xs → Found p (x ∷ xs)
  Found-there x xs e (missing a b) = missing (rw (e, a)) (rw (e, b))
  Found-there x xs e (found i y a b c d) = found (suc i) y (rw (e, a)) (rw (e, b)) c d

  pub Found-of : (xs : List A) → Found p xs
  Found-of [] = missing refl refl
  Found-of (x ∷ xs) = elim (Bool-cases (p x)) [
    | inl e ↦ found 0 x (rw e) (rw e) refl e
    | inr e ↦ Found-there x xs e (Found-of xs)
  ]

  pub adjust-eq-set :
      (f : A → A) (xs : List A) (i : ℕ) (x : A)
      → find_index p xs ≡ some i
      → get_elem? xs i ≡ some x
      → adjust p f xs ≡ set xs i (f x)
  adjust-eq-set f [] i x h g = cc
  adjust-eq-set f (y ∷ ys) zero x h g = ground (arith, adjust-eq-set f ys 0 x)
  adjust-eq-set f (y ∷ ys) (suc i) x h g = ground (arith, adjust-eq-set f ys i x)

  -- A write that leaves the test as it was leaves the position.
  pub find_index-set_same :
      (xs : List A) (i : ℕ) (x v : A)
      → get_elem? xs i ≡ some x
      → p v ≡ p x
      → find_index p (set xs i v) ≡ find_index p xs
  find_index-set_same [] i x v g e = refl
  find_index-set_same (y ∷ ys) zero x v g e = ground arith
  find_index-set_same (y ∷ ys) (suc i) x v g e = ground (arith, find_index-set_same ys i x v)

  -- A write that makes one element the first to pass.
  pub find_index-set_new :
      (xs : List A) (i : ℕ) (x v : A)
      → get_elem? xs i ≡ some x
      → find_index p xs ≡ none
      → p v ≡ true
      → find_index p (set xs i v) ≡ some i
  find_index-set_new [] i x v g n e = cc
  find_index-set_new (y ∷ ys) zero x v g n e = rw e
  find_index-set_new (y ∷ ys) (suc i) x v g n e = ground (arith, find_index-set_new ys i x v)

  pub find_index-append :
      (xs : List A) (v : A)
      → find_index p (xs ++ v ∷ [])
        ≡ elim (find_index p xs) [ some i ↦ some i | none ↦ if p v then some (length xs) else none ]
  find_index-append [] v = refl
  find_index-append (y ∷ ys) v = ground (arith, find_index-append ys v)
