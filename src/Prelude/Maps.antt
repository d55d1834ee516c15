-- ===== src/Prelude/Maps.antt =====
-- Maps from texts, as lists of pairs in the order in which the keys were added.
use Prim.Native.Nat.{◌+◌}
use Prim.Native.String.{String}
use mathlib.Core.Path.{◌≡◌, refl, sym, ap, ◌∙◌}
use mathlib.Core.Logic.{inl, inr}
use mathlib.Core.Bool.{Bool, true, false, ◌||◌, ◌&&◌, not}
use mathlib.Core.Option.{Option, none, some}
use mathlib.Core.List.{List, [], ◌∷◌, map}
use native.Mathlib.Omega.{arith}
use package.text.Mathlib.Text.{◌==◌}
use package.text.Mathlib.TextEquality.{eq_iff}
use package.text.Mathlib.TextPositions.{eq_refl}
use forgetbase.Prelude.Tests.{if◌then◌else◌, Bool-cases}
use forgetbase.Prelude.Lists.{length, filter, All, All-map, All-of, All-both}
use forgetbase.Prelude.Texts.{includes, is_distinct}
use forgetbase.Prelude.Distinct.{eq_sym}

module _ {ℓ} {A : Type ℓ} where
  -- `map.get(key)`
  abbrev pub lookup_key : String → List (String × A) → Option A
  lookup_key k [] = none
  lookup_key k ((j, a) ∷ rest) = if j == k then some a else lookup_key k rest

  -- `map.set(key, value)`
  abbrev pub set_key : String → A → List (String × A) → List (String × A)
  set_key k a [] = (k, a) ∷ []
  set_key k a ((j, b) ∷ rest) = if j == k then (j, a) ∷ rest else (j, b) ∷ set_key k a rest

  -- `map.delete(key)`, whose keys are distinct
  abbrev pub delete_key : String → List (String × A) → List (String × A)
  delete_key k = filter (λ e. not (e.0 == k))

  abbrev pub delete_keys : List String → List (String × A) → List (String × A)
  delete_keys [] l = l
  delete_keys (k ∷ ks) l = delete_keys ks (delete_key k l)

  abbrev pub keys : List (String × A) → List String
  keys = map (λ e. e.0)

  pub lookup_key-set_key :
      (j k : String) (a : A) (l : List (String × A))
      → lookup_key j (set_key k a l) ≡ (if k == j then some a else lookup_key j l)
  lookup_key-set_key j k a [] = refl
  lookup_key-set_key j k a ((i, b) ∷ l) = elim (Bool-cases (i == k)) [
    | inl same_key ↦
        rw (same_key, (eq_iff i k).0 same_key)
          (elim (Bool-cases (k == j)) [ inl e ↦ rw e refl | inr e ↦ rw e refl ])
    | inr differs ↦ elim (Bool-cases (i == j)) [
      | inr further ↦ rw (differs, further) (lookup_key-set_key j k a l)
      | inl here ↦
          let other : (k == j) ≡ false = rw (← (eq_iff i j).0 here) (eq_sym k i ∙ differs) in
          rw (differs, here, other) refl
    ]
  ]

  pub includes-set_key :
      (j k : String) (a : A) (l : List (String × A))
      → includes j (keys (set_key k a l)) ≡ ((k == j) || includes j (keys l))
  includes-set_key j k a [] = ground arith
  includes-set_key j k a ((i, b) ∷ l) = elim (Bool-cases (i == k)) [
    | inl same_key ↦ rw (same_key, (eq_iff i k).0 same_key) (ground arith)
    | inr differs ↦ rw differs (ground (arith, includes-set_key j k a l))
  ]

  pub is_distinct-set_key :
      (k : String) (a : A) (l : List (String × A))
      → is_distinct (keys l) ≡ true
      → is_distinct (keys (set_key k a l)) ≡ true
  is_distinct-set_key k a [] d = refl
  is_distinct-set_key k a ((i, b) ∷ l) d = elim (Bool-cases (i == k)) [
    | inl same_key ↦ rw same_key d
    | inr differs ↦ rw differs (
        ground (arith, d, includes-set_key i k a l, is_distinct-set_key k a l, eq_sym i k, differs))
  ]

  pub absent_filter :
      (j : String) (p : String × A → Bool) (l : List (String × A))
      → includes j (keys l) ≡ false
      → includes j (keys (filter p l)) ≡ false
  absent_filter j p [] n = refl
  absent_filter j p (e ∷ l) n = elim (Bool-cases (p e)) [
    | inl kept ↦ rw kept (ground (arith, n, absent_filter j p l))
    | inr dropped ↦ rw dropped (absent_filter j p l (ground (arith, n)))
  ]

  pub is_distinct-filter :
      (p : String × A → Bool) (l : List (String × A))
      → is_distinct (keys l) ≡ true
      → is_distinct (keys (filter p l)) ≡ true
  is_distinct-filter p [] d = refl
  is_distinct-filter p (e ∷ l) d = elim (Bool-cases (p e)) [
    | inl kept ↦ rw kept (ground (arith, d, absent_filter e.0 p l, is_distinct-filter p l))
    | inr dropped ↦ rw dropped (is_distinct-filter p l (ground (arith, d)))
  ]

  lookup_key-absent :
      (j : String) (l : List (String × A)) → includes j (keys l) ≡ false → lookup_key j l ≡ none
  lookup_key-absent j [] n = refl
  lookup_key-absent j ((i, a) ∷ l) n =
      let other : (i == j) ≡ false = ground (arith, n) in
      rw other (lookup_key-absent j l (ground (arith, n)))

  -- What a map without some of its entries has under a key.
  pub lookup_key-filter :
      (j : String) (p : String × A → Bool) (l : List (String × A))
      → is_distinct (keys l) ≡ true
      → lookup_key j (filter p l)
        ≡ (elim (lookup_key j l) [ none ↦ none | some a ↦ if p (j, a) then some a else none ])
  lookup_key-filter j p [] d = refl
  lookup_key-filter j p ((i, a) ∷ l) d = elim (Bool-cases (i == j)) [
    | inl here ↦ elim (Bool-cases (p (i, a))) [
      | inl kept ↦ rw (kept, here, ← (eq_iff i j).0 here, kept) refl
      | inr dropped ↦
          let none_left : lookup_key j (filter p l) ≡ none =
            lookup_key-absent j (filter p l)
              (absent_filter j p l (rw (← (eq_iff i j).0 here) (ground (arith, d)))) in
          rw (dropped, here, none_left, ← (eq_iff i j).0 here, dropped) refl
    ]
    | inr further ↦
        let rest = lookup_key-filter j p l (ground (arith, d)) in
        elim (Bool-cases (p (i, a))) [
          | inl kept ↦ rw (kept, further) rest
          | inr dropped ↦ rw (dropped, further) rest
        ]
  ]

  filter-equal :
      (p q : String × A → Bool) (l : List (String × A))
      → All (λ e. p e ≡ q e) l
      → filter p l ≡ filter q l
  filter-equal p q [] h = refl
  filter-equal p q (e ∷ l) h = rw (h.0, filter-equal p q l h.1) refl

  filter_whole :
      (p : String × A → Bool) (l : List (String × A)) → All (λ e. p e ≡ true) l → filter p l ≡ l
  filter_whole p [] h = refl
  filter_whole p (e ∷ l) h = rw (h.0, filter_whole p l h.1) refl

  filter-filter :
      (p q : String × A → Bool) (l : List (String × A))
      → filter p (filter q l) ≡ filter (λ e. q e && p e) l
  filter-filter p q [] = refl
  filter-filter p q (e ∷ l) = elim (Bool-cases (q e)) [
    | inl kept ↦ rw (kept, filter-filter p q l) refl
    | inr dropped ↦ rw (dropped, filter-filter p q l) refl
  ]

  delete_keys_lem :
      (ks : List String) (l : List (String × A))
      → delete_keys ks l ≡ filter (λ e. not (includes e.0 ks)) l
  delete_keys_lem [] l = sym (filter_whole (λ e. not (includes e.0 [])) l (All-of _ (λ e. refl) l))
  delete_keys_lem (k ∷ ks) l =
      delete_keys_lem ks (delete_key k l)
      ∙ filter-filter (λ e. not (includes e.0 ks)) (λ e. not (e.0 == k)) l
      ∙ filter-equal _ _ l (All-of _ (λ e. ground (arith, eq_sym k e.0)) l)

  others :
      (x : String × A) (l : List (String × A))
      → includes x.0 (keys l) ≡ false
      → All (λ e. (x.0 == e.0) ≡ false) l
  others x [] n = tt
  others x (e ∷ l) n = (ground (arith, n, eq_sym x.0 e.0), others x l (ground (arith, n)))

  selected :
      (p : String × A → Bool) (l : List (String × A))
      → is_distinct (keys l) ≡ true
      → All (λ e. includes e.0 (keys (filter p l)) ≡ p e) l
  selected p [] d = tt
  selected p (x ∷ l) d =
      let new : includes x.0 (keys l) ≡ false = ground (arith, d) in
      let rest = selected p l (ground (arith, d)) in
      elim (Bool-cases (p x)) [
        | inl kept ↦ rw kept (
          rw (eq_refl x.0) refl,
          All-map (λ e h. rw (kept, h.0, h.1) refl) l (All-both _ _ l (others x l new) rest),
        )
        | inr dropped ↦ rw dropped (absent_filter x.0 p l new, All-map (λ e h. rw dropped h) l rest)
      ]

  -- Deleting the keys of the entries that a test selects leaves the other entries.
  pub delete_keys-filter :
      (p : String × A → Bool) (l : List (String × A))
      → is_distinct (keys l) ≡ true
      → delete_keys (keys (filter p l)) l ≡ filter (λ e. not (p e)) l
  delete_keys-filter p l d =
      delete_keys_lem (keys (filter p l)) l
      ∙ filter-equal _ _ l (All-map (λ e h. ap not h) l (selected p l d))

  pub length-filter :
      (p : String × A → Bool) (l : List (String × A))
      → length (filter p l) + length (filter (λ e. not (p e)) l) ≡ length l
  length-filter p [] = refl
  length-filter p (e ∷ l) = elim (Bool-cases (p e)) [
    | inl kept ↦ rw kept (omega (arith, length-filter p l))
    | inr dropped ↦ rw dropped (omega (arith, length-filter p l))
  ]
