-- ===== src/Validation/Report/Checks.antt =====
-- packages/validation/src/index.ts: what each of the checks of a collection says when it finds no error.
use forgetbase.Prelude.{
  append-nil, append_assoc, is_distinct-snoc, ◌≡◌, refl, ◌⊎◌, inl, inr, ℕ, suc, String, Bool, true,
  false, not, Option, none, some, List, [], ◌∷◌, ◌++◌, includes, is_distinct, All, append-All,
  is_some, if◌then◌else◌, Bool-cases, Option-cases, arith,
}
use forgetbase.Validation.{
  Asset, Issue, Metadata, word, array, other, is_error, is_bare, when, leaked_packages,
  validate_restricted_exports, validate_human_document_instruction_links, linked_ids,
  linked_duplicates, linked_verdict, first_index, duplicates, validate_stable_id_uniqueness, field,
  stable_ids, array_issues, value_issues, key_issues, references_from, validate_internal_references,
  internal_reference_keys,
}
use forgetbase.Validation.Dates.{normalize_date_only}
use forgetbase.Validation.Report.{validate_review_date}

abbrev pub NoErrors : List Issue → Type 0
NoErrors = All (λ i. is_error i.severity ≡ false)

pub append-NoErrors : (xs ys : List Issue) → NoErrors (xs ++ ys) → NoErrors xs × NoErrors ys
append-NoErrors xs ys h = append-All _ xs ys h

when-NoErrors :
    (b : Bool) (i : Issue) → is_error i.severity ≡ true → NoErrors (when b i) → b ≡ false
when-NoErrors true i e h = cc
when-NoErrors false i e h = refl

pub validate_review_date-NoErrors :
    (a : Asset) (k : ℕ) (as_of : String)
    → NoErrors (validate_review_date a k as_of)
    → is_some (normalize_date_only a.review_due_at) ≡ true
unfolding validate_review_date
validate_review_date-NoErrors a k as_of h =
    elim (Option-cases (normalize_date_only a.review_due_at)) [
      | inl no_date ↦ absurd (ground (arith, no_date, h))
      | inr (d, e) ↦ rw e refl
    ]

pub validate_restricted_exports-NoErrors :
    (a : Asset) (k : ℕ) (packages : List String)
    → NoErrors (validate_restricted_exports a k packages)
    → leaked_packages a packages ≡ []
unfolding validate_restricted_exports
validate_restricted_exports-NoErrors a k packages h =
    bare (leaked_packages a packages)
      (ground (arith, when-NoErrors (not (is_bare (leaked_packages a packages))) _ refl h))
  where
    bare : (l : List String) → is_bare l ≡ true → l ≡ []
    bare [] h = refl
    bare (_ ∷ _) h = cc

pub instruction_links-NoErrors :
    (a : Asset) (k : ℕ)
    → NoErrors (validate_human_document_instruction_links a k)
    → (linked_ids a ≡ []) ⊎ (a.has_instruction ≡ true)
unfolding validate_human_document_instruction_links
instruction_links-NoErrors a k h = elim (Bool-cases a.has_instruction) [
  | inl has ↦ inr has
  | inr without ↦ inl (bare without (linked_ids a) h)
]
  where
    bare :
        a.has_instruction ≡ false
        → (ids : List String)
        → NoErrors (
            if is_bare ids
            then []
            else linked_duplicates a.stable_id k [] 0 ids ++ linked_verdict a k ∷ [])
        → ids ≡ []
    bare without [] h = refl
    bare without (id ∷ ids) h =
        let (_, v) = append-All _ (linked_duplicates a.stable_id k [] 0 (id ∷ ids)) _ h in
        absurd (ground (arith, without, v.0))

first_index-none :
    (id : String) (k : ℕ) (l : List Asset)
    → first_index id k l ≡ none
    → includes id (stable_ids l) ≡ false
first_index-none id k [] h = refl
first_index-none id k (a ∷ l) h = ground (arith, first_index-none id (suc k) l)

stable_ids-append : (xs ys : List Asset) → stable_ids (xs ++ ys) ≡ stable_ids xs ++ stable_ids ys
stable_ids-append [] ys = refl
stable_ids-append (x ∷ xs) ys = rw (stable_ids-append xs ys) refl

duplicates-NoErrors :
    (before : List Asset) (k : ℕ) (rest : List Asset)
    → is_distinct (stable_ids before) ≡ true
    → NoErrors (duplicates before k rest)
    → is_distinct (stable_ids (before ++ rest)) ≡ true
unfolding duplicates
duplicates-NoErrors before k [] d h = rw (append-nil before) d
duplicates-NoErrors before k (a ∷ rest) d h =
    let (own, others) = append-All _ _ (duplicates (before ++ a ∷ []) (suc k) rest) h in
    elim (Option-cases (first_index a.stable_id 0 before)) [
      | inr (first, e) ↦ absurd (ground (arith, e, own))
      | inl new ↦
          let snoc : is_distinct (stable_ids (before ++ a ∷ [])) ≡ true =
            rw (stable_ids-append before (a ∷ [])) (
              is_distinct-snoc (stable_ids before) a.stable_id d
                (first_index-none a.stable_id 0 before new)) in
          rw (← append_assoc before (a ∷ []) rest)
            (duplicates-NoErrors (before ++ a ∷ []) (suc k) rest snoc others)
    ]

pub stable_id_uniqueness-NoErrors :
    (assets : List Asset)
    → NoErrors (validate_stable_id_uniqueness assets)
    → is_distinct (stable_ids assets) ≡ true
unfolding validate_stable_id_uniqueness
stable_id_uniqueness-NoErrors assets h = duplicates-NoErrors [] 0 assets refl h

-- an entry of a list of references that names one of the assets
abbrev pub is_reference : List String → Option String → Bool
is_reference ids none = false
is_reference ids (some r) = includes r ids

-- A list of references names assets only; what is no list is no reference.
abbrev pub HasReferences : List String → Metadata → Type 0
HasReferences ids (array rs) = All (λ r. is_reference ids r ≡ true) rs
HasReferences ids _ = Unit

module _ (ids : List String) where
  array_issues-NoErrors :
      (id : String) (index : ℕ) (key : String) (k : ℕ) (rs : List (Option String))
      → NoErrors (array_issues ids id index key k rs)
      → All (λ r. is_reference ids r ≡ true) rs
  unfolding array_issues
  array_issues-NoErrors id index key k [] h = tt
  array_issues-NoErrors id index key k (none ∷ rs) h = absurd (ground (arith, h.0))
  array_issues-NoErrors id index key k (some r ∷ rs) h =
      let (own, others) = append-All _ _ (array_issues ids id index key (suc k) rs) h in
      (
        ground (arith, when-NoErrors (not (includes r ids)) _ refl own),
        array_issues-NoErrors id index key (suc k) rs others,
      )

  value_issues-NoErrors :
      (id : String) (index : ℕ) (key : String) (v : Metadata)
      → NoErrors (value_issues ids id index key v)
      → HasReferences ids v
  value_issues-NoErrors id index key (word _) h = tt
  value_issues-NoErrors id index key (array rs) h = array_issues-NoErrors id index key 0 rs h
  value_issues-NoErrors id index key other h = tt

  key_issues-NoErrors :
      (a : Asset) (index : ℕ) (keys : List String)
      → NoErrors (key_issues ids a index keys)
      → All (λ key. HasReferences ids (field key a.metadata)) keys
  unfolding key_issues
  key_issues-NoErrors a index [] h = tt
  key_issues-NoErrors a index (key ∷ keys) h =
      let (own, others) = append-All _ _ (key_issues ids a index keys) h in
      (
        value_issues-NoErrors a.stable_id index key (field key a.metadata) own,
        key_issues-NoErrors a index keys others,
      )

  references_from-NoErrors :
      (k : ℕ) (assets : List Asset)
      → NoErrors (references_from ids k assets)
      → All
          (λ a. All (λ key. HasReferences ids (field key a.metadata)) internal_reference_keys)
          assets
  unfolding references_from
  references_from-NoErrors k [] h = tt
  references_from-NoErrors k (a ∷ assets) h =
      let (own, others) = append-All _ _ (references_from ids (suc k) assets) h in
      (
        key_issues-NoErrors a k internal_reference_keys own,
        references_from-NoErrors (suc k) assets others,
      )

pub internal_references-NoErrors :
    (assets : List Asset)
    → NoErrors (validate_internal_references assets)
    → All
        (λ a.
          All
            (λ key. HasReferences (stable_ids assets) (field key a.metadata))
            internal_reference_keys)
        assets
unfolding validate_internal_references
internal_references-NoErrors assets h = references_from-NoErrors (stable_ids assets) 0 assets h
