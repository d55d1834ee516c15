-- ===== src/Validation/Report/Sound.antt =====
-- packages/validation/src/index.ts: what a collection is like that `validateAssetCollection` accepts.
use forgetbase.Prelude.{
  if-eq-some, some_equal, ap, sym, ◌∙◌, subst, ◌≡◌, refl, ◌⊎◌, inl, inr, ℕ, suc, String, true,
  false, Option, none, some, List, [], ◌∷◌, ◌++◌, map, length, includes, is_distinct, All, is_some,
  ◌==◌, eq_iff, Bool-cases, Option-cases, arith, nat_eq,
}
use forgetbase.Validation.{
  Asset, Issue, is_error, leaked_packages, validate_allowed_surfaces, validate_restricted_exports,
  validate_search_eligibility, validate_human_document_instruction_links, linked_ids, first_index,
  validate_stable_id_uniqueness, field, stable_ids, validate_internal_references,
  internal_reference_keys,
}
use forgetbase.Validation.Dates.{Day, normalize_date_only}
use forgetbase.Validation.Navigation.{
  parents_from, lookup, parent_of, entry_issues, parent_issues, is_present, cycle_issues,
  validate_reader_navigation,
}
use forgetbase.Validation.Navigation.Paths.{IsCyclic, IsCyclic-present}
use forgetbase.Validation.Navigation.Cycles.{cycle_members_iff}
use forgetbase.Validation.Report.{
  Entry, parsed, rejected, asset_issues, record_issues, schema_issue, parsed_assets, count_of,
  ValidationReport, report, parse_report, public_packages, as_of_date, collection_issues,
  validate_asset_collection,
}
use forgetbase.Validation.Report.Checks.{
  NoErrors, append-NoErrors, validate_review_date-NoErrors, validate_restricted_exports-NoErrors,
  instruction_links-NoErrors, stable_id_uniqueness-NoErrors, HasReferences,
  internal_references-NoErrors,
}

-- An asset that passes the checks of one asset.
pub record IsSoundAsset (packages : List String) (a : Asset) : Type 0 where
  pub dated : is_some (normalize_date_only a.review_due_at) ≡ true
  pub contained : leaked_packages a packages ≡ []
  pub instructed : (linked_ids a ≡ []) ⊎ (a.has_instruction ≡ true)

-- A record that the schema has no complaint about, and that is sound.
abbrev pub IsSoundEntry : List String → Entry → Type 0
IsSoundEntry packages (parsed a) = IsSoundAsset packages a
IsSoundEntry packages (rejected _ problems) = problems ≡ []

-- A parent that the navigation has no complaint about.
abbrev pub IsGoodParent : List Asset → String → String → Type 0
IsGoodParent assets id parent =
    ((parent == id) ≡ false) × (is_some (first_index parent 0 assets) ≡ true)

pub record IsSoundCollection (packages : List String) (entries : List Entry) : Type 0 where
  pub sound_entries : All (IsSoundEntry packages) entries
  pub distinct : is_distinct (stable_ids (parsed_assets entries)) ≡ true
  pub references :
      All
        (λ a.
          All
            (λ key. HasReferences (stable_ids (parsed_assets entries)) (field key a.metadata))
            internal_reference_keys)
        (parsed_assets entries)
  pub parents :
      (id parent : String)
      → includes id (stable_ids (parsed_assets entries)) ≡ true
      → parent_of (parsed_assets entries) id ≡ some parent
      → IsGoodParent (parsed_assets entries) id parent
  pub acyclic : (id : String) → ¬ IsCyclic (parsed_assets entries) id

asset_issues-NoErrors :
    (a : Asset) (k : ℕ) (as_of : String) (packages : List String)
    → NoErrors (asset_issues a k as_of packages)
    → IsSoundAsset packages a
unfolding asset_issues
asset_issues-NoErrors a k as_of packages h =
    let (h1, links) = append-NoErrors _ (validate_human_document_instruction_links a k) h in
    let (h2, _) = append-NoErrors _ (validate_search_eligibility a k) h1 in
    let (h3, exports) = append-NoErrors _ (validate_restricted_exports a k packages) h2 in
    let (date, _) = append-NoErrors _ (validate_allowed_surfaces a k) h3 in
    record {
      dated = validate_review_date-NoErrors a k as_of date;
      contained = validate_restricted_exports-NoErrors a k packages exports;
      instructed = instruction_links-NoErrors a k links;
    }

schema_issues-NoErrors :
    (k : ℕ) (id : Option String) (problems : List (List String × String))
    → NoErrors (map (schema_issue k id) problems)
    → problems ≡ []
schema_issues-NoErrors k id [] h = refl
schema_issues-NoErrors k id (p ∷ ps) h = absurd (ground (arith, h.0))

record_issues-NoErrors :
    (k : ℕ) (as_of : String) (packages : List String) (entries : List Entry)
    → NoErrors (record_issues k as_of packages entries)
    → All (IsSoundEntry packages) entries
unfolding record_issues
record_issues-NoErrors k as_of packages [] h = tt
record_issues-NoErrors k as_of packages (parsed a ∷ rest) h =
    let (own, others) = append-NoErrors (asset_issues a k as_of packages) _ h in
    (
      asset_issues-NoErrors a k as_of packages own,
      record_issues-NoErrors (suc k) as_of packages rest others,
    )
record_issues-NoErrors k as_of packages (rejected id problems ∷ rest) h =
    let (own, others) = append-NoErrors (map (schema_issue k id) problems) _ h in
    (
      schema_issues-NoErrors k id problems own,
      record_issues-NoErrors (suc k) as_of packages rest others,
    )

includes-first_index :
    (id : String) (k : ℕ) (assets : List Asset)
    → includes id (stable_ids assets) ≡ true
    → is_some (first_index id k assets) ≡ true
includes-first_index id k [] h = cc
includes-first_index id k (a ∷ as') h = ground (arith, includes-first_index id (suc k) as')

entry_issues-NoErrors :
    (assets : List Asset) (parent id : String)
    → is_some (first_index id 0 assets) ≡ true
    → NoErrors (entry_issues assets parent id)
    → IsGoodParent assets id parent
entry_issues-NoErrors assets parent id p h = ground arith

parent_issues-NoErrors :
    (assets : List Asset) (ps : List (String × String)) (id parent : String)
    → is_some (first_index id 0 assets) ≡ true
    → NoErrors (parent_issues assets ps)
    → lookup id ps ≡ some parent
    → IsGoodParent assets id parent
unfolding parent_issues lookup
parent_issues-NoErrors assets [] id parent p h e = cc
parent_issues-NoErrors assets ((k, v) ∷ ps) id parent p h e =
    let (own, others) = append-NoErrors (entry_issues assets v k) _ h in
    elim (Bool-cases (k == id)) [
      | inl same_id ↦
          let v_parent : v ≡ parent = some_equal (rw same_id at e) in
          entry_issues-NoErrors assets parent id p (
            subst (λ (x, y). NoErrors (entry_issues assets x y))
              (ap (λ x. (x, k)) v_parent ∙ ap (λ y. (parent, y)) ((eq_iff k id).0 same_id)) own)
      | inr other_id ↦ parent_issues-NoErrors assets ps id parent p others (rw other_id at e)
    ]

-- An issue about each id of an asset.
cycle_issues-NoErrors :
    (assets : List Asset) (ids : List String) (id : String)
    → NoErrors (cycle_issues assets ids)
    → includes id ids ≡ true
    → is_some (first_index id 0 assets) ≡ false
unfolding cycle_issues
cycle_issues-NoErrors assets [] id h i = cc
cycle_issues-NoErrors assets (x ∷ ids) id h i = elim (Bool-cases (x == id)) [
  | inr other_id ↦
      cycle_issues-NoErrors assets ids id (append-NoErrors _ (cycle_issues assets ids) h).1
        (rw other_id at i)
  | inl same_id ↦ elim (Option-cases (first_index x 0 assets)) [
    | inl absent ↦ rw (← (eq_iff x id).0 same_id, absent) refl
    | inr (k, e) ↦ absurd (ground (arith, e, h))
  ]
]

count-NoErrors :
    (issues : List Issue)
    → nat_eq (count_of (λ i. is_error i.severity) issues) 0 ≡ true
    → NoErrors issues
count-NoErrors [] h = tt
count-NoErrors (i ∷ issues) h = elim (Bool-cases (is_error i.severity)) [
  | inl bad ↦ absurd (ground (arith, bad, h))
  | inr fine ↦ (fine, count-NoErrors issues (rw fine at h))
]

-- the navigation of a collection without errors
record IsSoundNavigation (assets : List Asset) : Type 0 where
  parents :
      (id parent : String)
      → includes id (stable_ids assets) ≡ true
      → parent_of assets id ≡ some parent
      → IsGoodParent assets id parent
  acyclic : (id : String) → ¬ IsCyclic assets id

reader_navigation-NoErrors :
    (assets : List Asset) (issues : List Issue)
    → validate_reader_navigation assets ≡ some issues
    → NoErrors issues
    → IsSoundNavigation assets
unfolding validate_reader_navigation parent_of is_present
reader_navigation-NoErrors assets issues e h =
    let (members, c, iff) = cycle_members_iff assets in
    let same_issues : parent_issues assets (parents_from [] assets) ++ cycle_issues assets members
        ≡ issues =
      some_equal (rw (validate_reader_navigation, c) at e) in
    let (ps, cs) =
      append-NoErrors (parent_issues assets (parents_from [] assets)) _
        (subst NoErrors (sym same_issues) h) in
    record {
      parents = λ id parent i q.
          parent_issues-NoErrors assets (parents_from [] assets) id parent
            (includes-first_index id 0 assets i) ps q;
      acyclic = λ id k.
          let absent = cycle_issues-NoErrors assets members id cs ((iff id).1 k) in
          let present = IsCyclic-present k in ground (arith, absent, present);
    }

collection_issues-IsSound :
    (date : String) (packages : List String) (entries : List Entry) (issues : List Issue)
    → collection_issues date packages entries ≡ some issues
    → NoErrors issues
    → IsSoundCollection packages entries
unfolding collection_issues
collection_issues-IsSound date packages entries issues e h =
    elim (Option-cases (validate_reader_navigation (parsed_assets entries))) [
      | inl no_answer ↦ absurd (ground (arith, no_answer, e))
      | inr (navigation, w) ↦
          let assets = parsed_assets entries in
          let same_issues = some_equal (rw (collection_issues, w) at e) in
          let (h1, nav) = append-NoErrors _ navigation (subst NoErrors (sym same_issues) h) in
          let (h2, refs) = append-NoErrors _ (validate_internal_references assets) h1 in
          let (records, ids) = append-NoErrors _ (validate_stable_id_uniqueness assets) h2 in
          let n = reader_navigation-NoErrors assets navigation w nav in
          record {
            sound_entries = record_issues-NoErrors 0 date packages entries records;
            distinct = stable_id_uniqueness-NoErrors assets ids;
            references = internal_references-NoErrors assets refs;
            parents = n.parents;
            acyclic = n.acyclic;
          }
    ]

-- A report that is fine is about a collection that is sound: the schema accepts every record, every asset has a valid
-- review date, no asset that is not public is in a public package, an asset that links instructions defines
-- one, the stable ids are distinct, the references and the parents are assets of the collection, and no
-- parents form a cycle.
pub validate_asset_collection-IsSound :
    (entries : List Entry) (as_of : Option String) (packages : Option (List String)) (today : Day)
    (r : ValidationReport)
    → validate_asset_collection entries as_of packages today ≡ some r
    → r.is_ok ≡ true
    → IsSoundCollection (public_packages packages) entries
unfolding validate_asset_collection collection_issues
validate_asset_collection-IsSound entries as_of packages today r e h =
    let date = as_of_date as_of today in
    let (issues, c, p) = report_of (collection_issues date (public_packages packages) entries) e in
    let fine = count-NoErrors issues (sym (ap (λ x. x.is_ok) p) ∙ h) in
    collection_issues-IsSound date (public_packages packages) entries issues c fine
  where
    report_of :
        (o : Option (List Issue))
        → elim o [
          | none ↦ none
          | some issues ↦ parse_report (report (as_of_date as_of today) (length entries) issues)
        ]
          ≡ some r
        → (issues : List Issue) × (o ≡ some issues)
          × (r ≡ report (as_of_date as_of today) (length entries) issues)
    report_of none e = cc
    report_of (some issues) e = (issues, refl, sym (if-eq-some _ _ e).1)
