-- ===== src/Validation/Navigation/Cycles.antt =====
-- packages/validation/src/index.ts: which assets `validateReaderNavigation` finds on a cycle.
use forgetbase.Prelude.{
  some_equal, subst, ap, sym, ◌∙◌, ℕ, zero, suc, String, true, false, ◌||◌, Option, none, some,
  List, [], ◌∷◌, ◌++◌, ◌≡◌, refl, ◌↔◌, includes, includes-append, All, All-append, ◌==◌, eq_iff,
  Bool-cases, Option-cases, inl, inr, arith, eq_refl,
}
use forgetbase.Validation.{Asset, stable_ids}
use forgetbase.Validation.Navigation.{
  is_present, next_id, slice_at, walk, walk_fuel, members_from, cycle_members, add_all,
}
use forgetbase.Validation.Navigation.Paths.{
  Leads, here, step, IsCyclic, IsChain, IsChain-snoc, slice_at-IsChain, cycle-IsCyclic,
  cycle_closed, Leads-back, IsCyclic-present, Leads-trans,
}
use forgetbase.Validation.Navigation.Ending.{walk-enough, is_present-includes}

module _ (assets : List Asset) where
  -- The path leads to the current id, when that is an asset's.
  abbrev IsOnWay : List String → Option String → Type 0
  IsOnWay path current =
      (id : String) → current ≡ some id → is_present assets id ≡ true → IsChain assets path id

  IsOnWay-next :
      (path : List String) (id : String)
      → IsOnWay path (some id)
      → is_present assets id ≡ true
      → IsOnWay (path ++ id ∷ []) (next_id assets id)
  IsOnWay-next path id h present d e p =
      IsChain-snoc assets path id d (h id refl present) (record { parent = e; present = p })

  -- a slice of the path that starts at the current id
  slice-cycle :
      (path : List String) (id : String) (ms : List String)
      → IsOnWay path (some id)
      → is_present assets id ≡ true
      → slice_at id path ≡ some ms
      → IsChain assets ms id × ((rest : List String) × (ms ≡ id ∷ rest))
  slice-cycle path id ms h p e = slice_at-IsChain assets path id id ms (h id refl p) e

  -- one round of the walk
  module _ (fuel : ℕ) (path : List String) (id : String) where
    round_absent : is_present assets id ≡ false → walk (suc fuel) assets path (some id) ≡ some []
    unfolding walk
    round_absent h = rw h refl

    round_cycle :
        (ms : List String)
        → is_present assets id ≡ true
        → slice_at id path ≡ some ms
        → walk (suc fuel) assets path (some id) ≡ some ms
    unfolding walk
    round_cycle ms h e = rw (h, e) refl

    round_further :
        is_present assets id ≡ true
        → slice_at id path ≡ none
        → walk (suc fuel) assets path (some id)
          ≡ walk fuel assets (path ++ id ∷ []) (next_id assets id)
    unfolding walk
    round_further h e = rw (h, e) refl

  walk-IsCyclic :
      (fuel : ℕ) (path : List String) (current : Option String) (ms : List String)
      → IsOnWay path current
      → walk fuel assets path current ≡ some ms
      → All (IsCyclic assets) ms
  unfolding walk
  walk-IsCyclic zero path current ms h w = cc
  walk-IsCyclic (suc fuel) path none ms h w = rw (← some_equal w) tt
  walk-IsCyclic (suc fuel) path (some id) ms h w = elim (Bool-cases (is_present assets id)) [
    | inr absent ↦ rw (← some_equal (sym (round_absent fuel path id absent) ∙ w)) tt
    | inl present ↦ elim (Option-cases (slice_at id path)) [
      | inr (members, e) ↦
          let (chain, (rest, start)) = slice-cycle path id members h present e in
          rw (← some_equal (sym (round_cycle fuel path id members present e) ∙ w), start)
            (cycle-IsCyclic assets id rest (subst (λ l. IsChain assets l id) start chain))
      | inl e ↦
          walk-IsCyclic fuel (path ++ id ∷ []) (next_id assets id) ms
            (IsOnWay-next path id h present) (sym (round_further fuel path id present e) ∙ w)
    ]
  ]

  out_of_fuel :
      (path : List String) (id : String) (ms : List String)
      → walk zero assets path (some id) ≡ some ms
      → ⊥
  unfolding walk
  out_of_fuel path id ms h = cc

  -- The walk that comes to an id on a cycle finds all of the cycle.
  walk-finds :
      (fuel : ℕ) (path : List String) (id : String) (ms : List String) (s : String)
      → IsOnWay path (some id)
      → walk fuel assets path (some id) ≡ some ms
      → Leads assets s id
      → IsCyclic assets s
      → includes s ms ≡ true
  walk-finds zero path id ms s h w l k = absurd (out_of_fuel path id ms w)
  walk-finds (suc fuel) path id ms s h w l k =
      let (back, (d, p, l')) = Leads-back l k in
      let present : is_present assets id ≡ true = IsCyclic-present (d, p, l') in
      elim (Option-cases (slice_at id path)) [
        | inr (members, e) ↦
            let (chain, (rest, start)) = slice-cycle path id members h present e in
            let same_members = some_equal (sym (round_cycle fuel path id members present e) ∙ w) in
            rw (← same_members, start)
              (cycle_closed assets id rest id s (subst (λ l. IsChain assets l id) start chain)
                (ground (arith, eq_refl id)) back)
        | inl e ↦
            walk-finds fuel (path ++ id ∷ []) d ms s
              (subst (IsOnWay (path ++ id ∷ [])) p.parent (IsOnWay-next path id h present))
              (ap (walk fuel assets (path ++ id ∷ [])) (sym p.parent)
                ∙ sym (round_further fuel path id present e)
                ∙ w)
              (Leads-trans l (step id d d p (here d))) k
      ]

  add_all-includes :
      (set xs : List String) (s : String)
      → (includes s set || includes s xs) ≡ true
      → includes s (add_all set xs) ≡ true
  add_all-includes set [] s h = ground arith
  add_all-includes set (x ∷ xs) s h = elim (Bool-cases (includes x set)) [
    | inl old ↦ rw old (
        add_all-includes set xs s (elim (Bool-cases (x == s)) [
          | inl same_id ↦ rw (subst (λ y. includes y set ≡ true) ((eq_iff x s).0 same_id) old) refl
          | inr other_id ↦ ground arith
        ]))
    | inr new ↦
        rw new
          (add_all-includes (set ++ x ∷ []) xs s (ground (arith, includes-append s set (x ∷ []))))
  ]

  add_all-All :
      (P : String → Type 0) (set xs : List String) → All P set → All P xs → All P (add_all set xs)
  add_all-All P set [] a b = a
  add_all-All P set (x ∷ xs) a b = elim (Bool-cases (includes x set)) [
    | inl old ↦ rw old (add_all-All P set xs a b.1)
    | inr new ↦
        rw new (add_all-All P (set ++ x ∷ []) xs (All-append _ set (x ∷ []) a (b.0, tt)) b.1)
  ]

  -- What the loop over the assets collects is all that is on a cycle.
  record IsMembers (set : List String) (rest : List Asset) (ms : List String) : Type 0 where
    sound : All (IsCyclic assets) set → All (IsCyclic assets) ms
    complete :
        (s : String)
        → IsCyclic assets s
        → (includes s set || includes s (stable_ids rest)) ≡ true
        → includes s ms ≡ true

  -- an asset's own round
  found-includes :
      (set : List String) (a : Asset) (rest : List Asset) (found : List String) (s : String)
      → walk (walk_fuel assets) assets [] (some a.stable_id) ≡ some found
      → IsCyclic assets s
      → (includes s set || includes s (stable_ids (a ∷ rest))) ≡ true
      → (includes s (add_all set found) || includes s (stable_ids rest)) ≡ true
  found-includes set a rest found s w k h = elim (Bool-cases (a.stable_id == s)) [
    | inl own ↦
        let id : a.stable_id ≡ s = (eq_iff a.stable_id s).0 own in
        let from_s = subst (λ y. walk (walk_fuel assets) assets [] (some y) ≡ some found) id w in
        let has = walk-finds (walk_fuel assets) [] s found s (λ _ _ _. tt) from_s (here s) k in
        rw (add_all-includes set found s (ground arith)) refl
    | inr other_id ↦ elim (Bool-cases (includes s set)) [
      | inl old ↦ rw (add_all-includes set found s (ground arith)) refl
      | inr new ↦ ground arith
    ]
  ]

  members_from-total :
      (set : List String) (rest : List Asset)
      → (ms : List String) × (members_from assets set rest ≡ some ms) × IsMembers set rest ms
  unfolding members_from
  members_from-total set [] =
      (set, refl, record { sound = λ a. a; complete = λ s k h. ground arith })
  members_from-total set (a ∷ rest) =
      elim (Option-cases (walk (walk_fuel assets) assets [] (some a.stable_id))) [
        | inl no_answer ↦
            let enough = walk-enough assets (some a.stable_id) in
            absurd (ground (arith, no_answer, enough))
        | inr (found, w) ↦
            let (ms, e, m) = members_from-total (add_all set found) rest in
            (
              ms,
              rw (members_from, w) e,
              record {
                sound = λ h. m.sound (
                    add_all-All _ set found h (
                      walk-IsCyclic (walk_fuel assets) [] (some a.stable_id) found (λ _ _ _. tt)
                        w));
                complete = λ s k h. m.complete s k (found-includes set a rest found s w k h);
              },
            )
      ]

includes-All :
    (P : String → Type 0) (xs : List String) (s : String) → All P xs → includes s xs ≡ true → P s
includes-All P [] s a h = cc
includes-All P (x ∷ xs) s a h = elim (Bool-cases (x == s)) [
  | inl same_id ↦ subst P ((eq_iff x s).0 same_id) a.0
  | inr other_id ↦ includes-All P xs s a.1 (ground arith)
]

-- The check of the navigation ends for every collection, and the ids it finds on cycles are those from
-- which some number of steps to the parent, at least one, leads back: steps that go to another asset of
-- the collection.
pub cycle_members_iff :
    (assets : List Asset)
    → (members : List String) × (cycle_members assets ≡ some members)
      × ((s : String) → (includes s members ≡ true) ↔ IsCyclic assets s)
unfolding cycle_members
cycle_members_iff assets =
    let (ms, e, m) = members_from-total assets [] assets in
    (
      ms,
      e,
      λ s. (
        (λ i. includes-All (IsCyclic assets) ms s (m.sound tt) i),
        (λ k. m.complete s k (is_present-includes assets s (IsCyclic-present k))),
      ),
    )
