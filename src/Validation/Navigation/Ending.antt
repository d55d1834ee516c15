-- ===== src/Validation/Navigation/Ending.antt =====
-- packages/validation/src/index.ts: the `while` loop of `validateReaderNavigation` ends.
use forgetbase.Prelude.{
  ℕ, zero, suc, ◌+◌, ◌≤◌, String, true, false, Option, none, some, List, [], ◌∷◌, ◌++◌, ◌≡◌, refl,
  length, length-append, includes, is_distinct, distinct-length, is_distinct-snoc, All, All-append,
  is_some, Bool-cases, Option-cases, inl, inr, arith,
}
use forgetbase.Validation.{Asset, first_index, stable_ids}
use forgetbase.Validation.Navigation.{is_present, next_id, slice_at, walk, walk_fuel}

length-stable_ids : (assets : List Asset) → length (stable_ids assets) ≡ length assets
length-stable_ids [] = refl
length-stable_ids (a ∷ as') = omega (arith, length-stable_ids as')

first_index-includes :
    (id : String) (k : ℕ) (assets : List Asset)
    → is_some (first_index id k assets) ≡ true
    → includes id (stable_ids assets) ≡ true
first_index-includes id k [] h = cc
first_index-includes id k (a ∷ as') h = ground (arith, first_index-includes id (suc k) as')

pub is_present-includes :
    (assets : List Asset) (id : String)
    → is_present assets id ≡ true
    → includes id (stable_ids assets) ≡ true
unfolding is_present
is_present-includes assets id h = first_index-includes id 0 assets (ground arith)

slice_at-none : (id : String) (xs : List String) → slice_at id xs ≡ none → includes id xs ≡ false
unfolding slice_at
slice_at-none id [] h = refl
slice_at-none id (x ∷ xs) h = ground (arith, slice_at-none id xs)

module _ (assets : List Asset) where
  -- a path of the walk
  record IsPath (path : List String) : Type 0 where
    distinct : is_distinct path ≡ true
    within : All (λ m. includes m (stable_ids assets) ≡ true) path

  IsPath-length : (path : List String) → IsPath path → length path ≤ length assets
  IsPath-length path h = omega (
    arith,
    length-stable_ids assets,
    distinct-length path (stable_ids assets) h.distinct h.within,
  )

  IsPath-snoc :
      (path : List String) (id : String)
      → IsPath path
      → is_present assets id ≡ true
      → includes id path ≡ false
      → IsPath (path ++ id ∷ [])
  IsPath-snoc path id h p n = record {
    distinct = is_distinct-snoc path id h.distinct n;
    within = All-append _ path (id ∷ []) h.within (is_present-includes assets id p, tt);
  }

  walk-is_some :
      (fuel : ℕ) (path : List String) (current : Option String)
      → IsPath path
      → length assets + 2 ≤ fuel + length path
      → is_some (walk fuel assets path current) ≡ true
  unfolding walk
  walk-is_some zero path current h f = absurd (omega (arith, IsPath-length path h))
  walk-is_some (suc fuel) path none h f = refl
  walk-is_some (suc fuel) path (some id) h f = elim (Bool-cases (is_present assets id)) [
    | inr absent ↦ rw absent refl
    | inl present ↦ rw present (elim (Option-cases (slice_at id path)) [
      | inr (members, e) ↦ rw e refl
      | inl e ↦ rw e (
          walk-is_some fuel (path ++ id ∷ []) (next_id assets id)
            (IsPath-snoc path id h present (slice_at-none id path e))
            (omega (arith, length-append path (id ∷ []))))
    ])
  ]

  -- The fuel is enough for the walk from any asset.
  pub walk-enough :
      (current : Option String) → is_some (walk (walk_fuel assets) assets [] current) ≡ true
  walk-enough current =
      walk-is_some (walk_fuel assets) [] current (record { distinct = refl; within = tt })
        (omega arith)
