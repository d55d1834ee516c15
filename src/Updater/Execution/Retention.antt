-- ===== src/Updater/Execution/Retention.antt =====
-- Which recovery points `pruneRecoveryPoints` removes.
use forgetbase.Prelude.{
  ℕ, suc, ◌+◌, ◌≤◌, false, not, ◌≡◌, refl, List, [], ◌∷◌, ◌⊎◌, ◌||◌, length, filter, All, arith,
  ltb, max, Bool-cases, inl, inr,
}
use forgetbase.Updater.Types.{RecoveryPoint}
use forgetbase.Updater.Execution.{retain}

-- The third list holds the elements of the first two, each in its order.
pub data Merge {A : Type 0} : List A → List A → List A → Type 0 where
  done : Merge [] [] []
  left : {x : A} {xs ys zs : List A} → Merge xs ys zs → Merge (x ∷ xs) ys (x ∷ zs)
  right : {y : A} {xs ys zs : List A} → Merge xs ys zs → Merge xs (y ∷ ys) (y ∷ zs)

abbrev pub unprotected : List RecoveryPoint → List RecoveryPoint
unprotected = filter (λ p. not p.protected)

retain-Merge :
    (most kept : ℕ) (ps : List RecoveryPoint)
    → Merge (retain most kept ps).0 (retain most kept ps).1 ps
unfolding retain
retain-Merge most kept [] = done
retain-Merge most kept (p ∷ ps) = elim (Bool-cases (p.protected || ltb kept most)) [
  | inl k ↦ rw k (left (retain-Merge most (suc kept) ps))
  | inr k ↦ rw k (right (retain-Merge most kept ps))
]

retain-removed :
    (most kept : ℕ) (ps : List RecoveryPoint)
    → All (λ p. p.protected ≡ false) (retain most kept ps).1
unfolding retain
retain-removed most kept [] = tt
retain-removed most kept (p ∷ ps) = elim (Bool-cases (p.protected || ltb kept most)) [
  | inl k ↦ rw k (retain-removed most (suc kept) ps)
  | inr k ↦ rw k (ground arith, retain-removed most kept ps)
]

retain-enough :
    (most kept : ℕ) (ps : List RecoveryPoint)
    → ((retain most kept ps).1 ≡ []) ⊎ (most ≤ kept + length (retain most kept ps).0)
unfolding retain
retain-enough most kept [] = inl refl
retain-enough most kept (p ∷ ps) = elim (Bool-cases (p.protected || ltb kept most)) [
  | inl k ↦
      rw k (elim (retain-enough most (suc kept) ps) [ inl e ↦ inl e | inr h ↦ inr (omega arith) ])
  | inr k ↦ rw k (inr (ground arith))
]

retain-few :
    (most kept : ℕ) (ps : List RecoveryPoint)
    → length (unprotected (retain most kept ps).0) + kept ≤ max most kept
unfolding retain
retain-few most kept [] = ground arith
retain-few most kept (p ∷ ps) = elim (Bool-cases (p.protected || ltb kept most)) [
  | inl k ↦ rw k (ground (arith, retain-few most (suc kept) ps))
  | inr k ↦ rw k (retain-few most kept ps)
]

-- What a pruning keeps and removes together are the ledger's recovery points, each part in the ledger's
-- order. It removes no protected one, and none at all while fewer than the given number are kept; and
-- of those that are not protected it keeps no more than that number.
pub retain_sound :
    (most : ℕ) (ps : List RecoveryPoint)
    → Merge (retain most 0 ps).0 (retain most 0 ps).1 ps
      × All (λ p. p.protected ≡ false) (retain most 0 ps).1
      × (((retain most 0 ps).1 ≡ []) ⊎ (most ≤ length (retain most 0 ps).0))
      × (length (unprotected (retain most 0 ps).0) ≤ most)
retain_sound most ps = (
  retain-Merge most 0 ps,
  retain-removed most 0 ps,
  ground (arith, retain-enough most 0 ps),
  ground (arith, retain-few most 0 ps),
)
