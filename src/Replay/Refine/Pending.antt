-- ===== src/Replay/Refine/Pending.antt =====
-- The set of pending approvals, when the history of one call changes.
use young_agent.Prelude.{
  ℕ, zero, suc, true, false, not, ◌≡◌, refl, sym, ◌∙◌, List, [], ◌∷◌, none, some, is_empty,
  get_elem?, set, if◌then◌else◌, nat_eq, ◌==◌, eqb_iff, contains, insert, remove, contains-insert,
  contains-remove, any, arith,
}
use young_agent.Replay.Step.{after_approval}
use young_agent.Replay.Spec.{CallHistory, is_pending}
use young_agent.Replay.Refine.Relation.{pending_at, shown}

module _ {V : Type 0} where
  -- One write shows at its own position only.
  pending_at-set :
      (xs : List (CallHistory V)) (i j : ℕ) (c v : CallHistory V)
      → get_elem? xs i ≡ some c
      → pending_at (get_elem? (set xs i v) j)
        ≡ (if j == i then is_pending v else pending_at (get_elem? xs j))
  pending_at-set [] i j c v g = cc
  pending_at-set (x ∷ xs) zero zero c v g = refl
  pending_at-set (x ∷ xs) zero (suc j) c v g = ground arith
  pending_at-set (x ∷ xs) (suc i) zero c v g = ground arith
  pending_at-set (x ∷ xs) (suc i) (suc j) c v g = ground (arith, pending_at-set xs i j c v g)

  module _ (pending : List ℕ) (xs : List (CallHistory V)) (i : ℕ) (c v : CallHistory V) where
    pub pending-insert :
        ((j : ℕ) → contains pending j ≡ pending_at (get_elem? xs j))
        → get_elem? xs i ≡ some c
        → is_pending v ≡ true
        → (j : ℕ) → contains (insert i pending) j ≡ pending_at (get_elem? (set xs i v) j)
    pending-insert h g p j =
        rw (contains-insert i j pending, pending_at-set xs i j c v g) (ground (arith, h j, p))

    pub pending-remove :
        ((j : ℕ) → contains pending j ≡ pending_at (get_elem? xs j))
        → get_elem? xs i ≡ some c
        → is_pending v ≡ false
        → (j : ℕ) → contains (remove i pending) j ≡ pending_at (get_elem? (set xs i v) j)
    pending-remove h g p j =
        rw (contains-remove i j pending, pending_at-set xs i j c v g) (ground (arith, h j, p))

pub is_empty-insert : (i : ℕ) (xs : List ℕ) → is_empty (insert i xs) ≡ false
is_empty-insert i [] = refl
is_empty-insert i (x ∷ xs) = ground arith

-- The status kept by the loop after an approval has been taken out of the set.
pub after_approval-remove :
    (i : ℕ) (pending : List ℕ)
    → after_approval (shown none pending) (remove i pending) ≡ shown none (remove i pending)
after_approval-remove i [] = refl
after_approval-remove i (x ∷ xs) = ground arith

module _ {V : Type 0} where
  -- A call that waits at some position, and one of all calls that waits.
  any-pending :
      (xs : List (CallHistory V)) (i : ℕ)
      → pending_at (get_elem? xs i) ≡ true
      → any is_pending xs ≡ true
  any-pending [] i h = cc
  any-pending (x ∷ xs) zero h = rw h
  any-pending (x ∷ xs) (suc i) h = ground (arith, any-pending xs i h)

  none-pending :
      (xs : List (CallHistory V))
      → ((i : ℕ) → pending_at (get_elem? xs i) ≡ false)
      → any is_pending xs ≡ false
  none-pending [] h = refl
  none-pending (x ∷ xs) h = rw (h 0) (none-pending xs (λ i. h (suc i)))

  -- The set is empty exactly when no history waits for a decision.
  pub is_empty-pending :
      (pending : List ℕ) (xs : List (CallHistory V))
      → ((i : ℕ) → contains pending i ≡ pending_at (get_elem? xs i))
      → is_empty pending ≡ not (any is_pending xs)
  is_empty-pending [] xs h = rw (none-pending xs (λ i. sym (h i)))
  is_empty-pending (p ∷ ps) xs h =
      rw (any-pending xs p (sym (h p) ∙ ground (arith, (eqb_iff p p).1)))
