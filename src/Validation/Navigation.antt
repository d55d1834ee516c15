-- ===== src/Validation/Navigation.antt =====
-- packages/validation/src/index.ts: `validateReaderNavigation`. A `Map` is a list of its entries in
-- the order of their insertion, a `Set` a list without repetitions.
pub mod Paths
pub mod Ending
pub mod Cycles
use forgetbase.Prelude.{
  ℕ, zero, suc, ◌+◌, String, Bool, true, false, not, ◌&&◌, Option, none, some, List, [], ◌∷◌, ◌++◌,
  length, if◌then◌else◌, is_some, includes, ◌==◌, text,
}
use forgetbase.Validation.{
  Issue, Asset, Metadata, word, array, other, error, issue, at_asset, when, first_index, field,
}

-- `parents.set(key, value)`
unfoldable pub set_entry : String → String → List (String × String) → List (String × String)
set_entry key value [] = (key, value) ∷ []
set_entry key value ((k, v) ∷ rest) =
    if k == key then (key, value) ∷ rest else (k, v) ∷ set_entry key value rest

-- `parents.get(key)`
unfoldable pub lookup : String → List (String × String) → Option String
lookup key [] = none
lookup key ((k, v) ∷ rest) = if k == key then some v else lookup key rest

-- the effect of one asset on `parents`
abbrev pub set_parent : Asset → List (String × String) → List (String × String)
set_parent a ps = elim (field "readerParentId" a.metadata) [
  | word p ↦ set_entry a.stable_id p ps
  | array _ ↦ ps
  | other ↦ ps
]

-- the loop that fills `parents`
unfoldable pub parents_from : List (String × String) → List Asset → List (String × String)
unfolding set_entry
parents_from ps [] = ps
parents_from ps (a ∷ rest) = parents_from (set_parent a ps) rest

-- what the asset of that id has as its parent
unfoldable pub parent_of : List Asset → String → Option String
unfolding parents_from lookup
parent_of assets id = lookup id (parents_from [] assets)

-- The loop over `parents`: a parent that is the asset itself, or that is missing.
abbrev pub entry_issues : List Asset → String → String → List Issue
entry_issues assets parent_id stable_id = elim (first_index stable_id 0 assets) [
  | none ↦ []
  | some index ↦
      if parent_id == stable_id
      then issue error "reader.parent_self" (at_asset index "metadata.readerParentId")
          "Reader navigation parent must not reference the asset itself" stable_id
        ∷ []
      else when (not (is_some (first_index parent_id 0 assets))) (
          issue error "reader.parent_missing" (at_asset index "metadata.readerParentId")
            (text "Reader navigation parent " parent_id " is not present in this validation set")
            stable_id)
]

unfoldable pub parent_issues : List Asset → List (String × String) → List Issue
parent_issues assets [] = []
parent_issues assets ((id, parent) ∷ rest) =
    entry_issues assets parent id ++ parent_issues assets rest

-- `current && assetIndexes.has(current)`
unfoldable pub is_present : List Asset → String → Bool
is_present assets id = not (id == "") && is_some (first_index id 0 assets)

-- `parentId === current ? undefined : parentId`
unfoldable pub next_id : List Asset → String → Option String
unfolding parent_of
next_id assets id = elim (parent_of assets id) [
  | none ↦ none
  | some p ↦ if p == id then none else some p
]

-- `path.slice(positions.get(current))`, when `current` is on the path
unfoldable pub slice_at : String → List String → Option (List String)
slice_at id [] = none
slice_at id (x ∷ xs) = if x == id then some (x ∷ xs) else slice_at id xs

-- The `while` loop: the ids it adds to `cycleMembers`. Without fuel there is no answer.
unfoldable pub walk : ℕ → List Asset → List String → Option String → Option (List String)
unfolding is_present next_id slice_at
walk zero assets path current = none
walk (suc fuel) assets path none = some []
walk (suc fuel) assets path (some id) =
    let further = walk fuel assets (path ++ id ∷ []) (next_id assets id) in
    if is_present assets id
    then elim (slice_at id path) [ none ↦ further | some members ↦ some members ]
    else some []

-- `cycleMembers.add` of each
abbrev pub add_all : List String → List String → List String
add_all set [] = set
add_all set (x ∷ xs) = add_all (if includes x set then set else set ++ x ∷ []) xs

-- A path has no more ids than there are assets, so this many rounds are enough.
abbrev pub walk_fuel : List Asset → ℕ
walk_fuel assets = length assets + 2

-- the loop over the assets
unfoldable pub members_from : List Asset → List String → List Asset → Option (List String)
unfolding walk
members_from assets set [] = some set
members_from assets set (a ∷ rest) = elim (walk (walk_fuel assets) assets [] (some a.stable_id)) [
  | none ↦ none
  | some members ↦ members_from assets (add_all set members) rest
]

unfoldable pub cycle_members : List Asset → Option (List String)
unfolding members_from
cycle_members assets = members_from assets [] assets

unfoldable pub cycle_issues : List Asset → List String → List Issue
cycle_issues assets [] = []
cycle_issues assets (id ∷ ids) =
    elim (first_index id 0 assets) [
      | none ↦ []
      | some index ↦
          issue error "reader.parent_cycle" (at_asset index "metadata.readerParentId")
            "Reader navigation parent relationships must not contain a cycle" id
          ∷ []
    ]
    ++ cycle_issues assets ids

unfoldable pub validate_reader_navigation : List Asset → Option (List Issue)
unfolding parents_from parent_issues cycle_members cycle_issues
validate_reader_navigation assets = elim (cycle_members assets) [
  | none ↦ none
  | some members ↦
      some (parent_issues assets (parents_from [] assets) ++ cycle_issues assets members)
]
