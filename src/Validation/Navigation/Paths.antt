-- ===== src/Validation/Navigation/Paths.antt =====
-- packages/validation/src/index.ts: what it means that one asset leads to another, and the path that the
-- walk of `validateReaderNavigation` keeps.
use forgetbase.Prelude.{
  String, true, some, List, [], ◌∷◌, ◌++◌, ◌≡◌, refl, sym, ◌∙◌, subst, includes, ◌==◌, eq_iff,
  eq_refl, All, All-map, All-both, some_equal, Bool-cases, inl, inr, ◌⊎◌, arith,
}
use forgetbase.Validation.{Asset}
use forgetbase.Validation.Navigation.{is_present, next_id, slice_at}

-- `b` is the parent of `a`, not `a` itself, and is an asset of the collection.
pub record IsParent (assets : List Asset) (a b : String) : Type 0 where
  pub parent : next_id assets a ≡ some b
  pub present : is_present assets b ≡ true

-- from `a` to `b` in any number of steps to the parent
pub data Leads (assets : List Asset) : String → String → Type 0 where
  here : (a : String) → Leads assets a a
  step : (a b c : String) → IsParent assets a b → Leads assets b c → Leads assets a c

-- at least one step leads from `a` back to `a`
abbrev pub IsCyclic : List Asset → String → Type 0
IsCyclic assets a = (b : String) × (IsParent assets a b) × (Leads assets b a)

pub Leads-trans :
    {assets : List Asset} {a b c : String} → Leads assets a b → Leads assets b c → Leads assets a c
Leads-trans (here _) q = q
Leads-trans (step a b _ p l) q = step a b _ p (Leads-trans l q)

parent_unique :
    {assets : List Asset} {a b c : String} → IsParent assets a b → IsParent assets a c → b ≡ c
parent_unique p q = some_equal (sym p.parent ∙ q.parent)

-- the parent of an id on a cycle is on it
IsCyclic-parent :
    {assets : List Asset} {a b : String}
    → IsParent assets a b
    → IsCyclic assets a
    → (Leads assets b a) × IsCyclic assets b
IsCyclic-parent {assets} {a} {b} p (x, q, l) =
    let back : Leads assets b a = subst (λ y. Leads assets y a) (parent_unique q p) l in
    (back, again b p back)
  where
    again : (b : String) → IsParent assets a b → Leads assets b a → IsCyclic assets b
    again b p (here _) = (b, p, here b)
    again b p (step _ y _ q m) = (y, q, Leads-trans m (step a b b p (here b)))

-- whatever an id on a cycle leads to leads back to it
pub Leads-back :
    {assets : List Asset} {a c : String}
    → Leads assets a c
    → IsCyclic assets a
    → (Leads assets c a) × IsCyclic assets c
Leads-back (here a) k = (here a, k)
Leads-back (step a b c p l) k =
    let (back, kb) = IsCyclic-parent p k in
    let (r, kc) = Leads-back l kb in (Leads-trans r back, kc)

is_present-target :
    {assets : List Asset} {a b c : String}
    → IsParent assets a b
    → Leads assets b c
    → is_present assets c ≡ true
is_present-target p (here _) = p.present
is_present-target p (step _ _ _ q l) = is_present-target q l

pub IsCyclic-present :
    {assets : List Asset} {a : String} → IsCyclic assets a → is_present assets a ≡ true
IsCyclic-present (b, p, l) = is_present-target p l

-- the first of the ids, or the one after them
abbrev pub head_or : List String → String → String
head_or [] end = end
head_or (x ∷ xs) end = x

-- Each id of the list has the next one as its parent, and the last one `end`.
abbrev pub IsChain : List Asset → List String → String → Type 0
IsChain assets [] end = Unit
IsChain assets (x ∷ xs) end = IsParent assets x (head_or xs end) × IsChain assets xs end

module _ (assets : List Asset) where
  pub IsChain-snoc :
      (xs : List String) (c d : String)
      → IsChain assets xs c
      → IsParent assets c d
      → IsChain assets (xs ++ c ∷ []) d
  IsChain-snoc [] c d h p = (p, tt)
  IsChain-snoc (x ∷ []) c d h p = (h.0, (p, tt))
  IsChain-snoc (x ∷ y ∷ xs) c d h p = (h.0, IsChain-snoc (y ∷ xs) c d h.1 p)

  -- a chain from an id on the path
  pub slice_at-IsChain :
      (xs : List String) (id e : String) (ms : List String)
      → IsChain assets xs e
      → slice_at id xs ≡ some ms
      → IsChain assets ms e × ((rest : List String) × (ms ≡ id ∷ rest))
  unfolding slice_at
  slice_at-IsChain [] id e ms h eq = cc
  slice_at-IsChain (x ∷ xs) id e ms h eq = elim (Bool-cases (x == id)) [
    | inl same_id ↦
        let found : ms ≡ x ∷ xs = ground arith in
        (rw found h, (xs, rw (found, (eq_iff x id).0 same_id) refl))
    | inr further ↦ slice_at-IsChain xs id e ms h.1 (ground arith)
  ]

  Leads-along :
      (xs : List String) (e : String) → IsChain assets xs e → Leads assets (head_or xs e) e
  Leads-along [] e h = here e
  Leads-along (x ∷ xs) e h = step x (head_or xs e) e h.0 (Leads-along xs e h.1)

  -- Each id of a chain leads to its end in at least one step, and the first one leads to each.
  chain_ahead :
      (xs : List String) (e : String)
      → IsChain assets xs e
      → All (λ m. (b : String) × (IsParent assets m b) × (Leads assets b e)) xs
  chain_ahead [] e h = tt
  chain_ahead (x ∷ xs) e h = ((head_or xs e, h.0, Leads-along xs e h.1), chain_ahead xs e h.1)

  chain_behind :
      (xs : List String) (e : String)
      → IsChain assets xs e
      → All (λ m. Leads assets (head_or xs e) m) xs
  chain_behind [] e h = tt
  chain_behind (x ∷ []) e h = (here x, tt)
  chain_behind (x ∷ y ∷ xs) e h =
      (here x, All-map (λ m l. step x y m h.0 l) (y ∷ xs) (chain_behind (y ∷ xs) e h.1))

  -- A chain that ends where it starts is a cycle,
  pub cycle-IsCyclic :
      (id : String) (rest : List String)
      → IsChain assets (id ∷ rest) id
      → All (IsCyclic assets) (id ∷ rest)
  cycle-IsCyclic id rest h =
      All-map (λ m (ahead, behind). (ahead.0, ahead.1, Leads-trans ahead.2 behind)) (id ∷ rest)
        (All-both _ _ (id ∷ rest) (chain_ahead (id ∷ rest) id h) (chain_behind (id ∷ rest) id h))

  -- and nothing leads out of it.
  chain_closed :
      (xs : List String) (e m d : String)
      → IsChain assets xs e
      → includes m xs ≡ true
      → IsParent assets m d
      → (includes d xs ≡ true) ⊎ (d ≡ e)
  chain_closed [] e m d h i p = cc
  chain_closed (x ∷ xs) e m d h i p = elim (Bool-cases (x == m)) [
    | inl same_id ↦
        next xs
          (parent_unique (subst (λ z. IsParent assets z d) (sym ((eq_iff x m).0 same_id)) p) h.0)
    | inr further ↦ elim (chain_closed xs e m d h.1 (ground arith) p) [
      | inl in_rest ↦ inl (ground arith)
      | inr at_end ↦ inr at_end
    ]
  ]
    where
      next : (xs : List String) → d ≡ head_or xs e → (includes d (x ∷ xs) ≡ true) ⊎ (d ≡ e)
      next [] h = inr h
      next (y ∷ ys) h = inl (rw h (ground (arith, eq_refl y)))

  pub cycle_closed :
      (id : String) (rest : List String) (a s : String)
      → IsChain assets (id ∷ rest) id
      → includes a (id ∷ rest) ≡ true
      → Leads assets a s
      → includes s (id ∷ rest) ≡ true
  cycle_closed id rest _ _ h i (here a) = i
  cycle_closed id rest _ _ h i (step a b s p l) =
      cycle_closed id rest b s h
        (elim (chain_closed (id ∷ rest) id a b h i p) [
          | inl in_list ↦ in_list
          | inr at_start ↦ rw at_start (ground (arith, eq_refl id))
        ])
        l
