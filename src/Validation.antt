-- ===== src/Validation.antt =====
-- packages/validation/src/index.ts: the checks of a collection of assets. A regular expression's or
-- the schema's verdict on a record is an argument: an entry is an asset or the schema's issues.
pub mod Dates
pub mod Navigation
pub mod Redaction
pub mod Report
mod Tests
use forgetbase.Prelude.{
  ℕ, suc, ◌+◌, String, Bool, true, false, not, ◌&&◌, ◌||◌, Option, none, some, List, [], ◌∷◌, ◌++◌,
  map, filter, any, length, if◌then◌else◌, nat_eq, ltb, is_none, is_some, includes, ◌==◌, text,
  decimal, join,
}

pub data Severity : Type 0 where
  error warning : Severity

-- `ValidationIssue`
pub record Issue : Type 0 where
  pub severity : Severity
  pub issue_code : String
  pub path : String
  pub message : String
  pub stable_id : Option String

pub data Lifecycle : Type 0 where
  draft active deprecated archived restricted : Lifecycle

pub data Sensitivity : Type 0 where
  public_demo internal restricted confidential secret : Sensitivity

-- One of the entries of `metadata`: a text, an array whose entries are texts or not, or anything else.
pub data Metadata : Type 0 where
  word : String → Metadata
  array : List (Option String) → Metadata
  other : Metadata

-- what the checks read of `ParsedAssetCreateInput`
pub record Asset : Type 0 where
  pub stable_id : String
  pub review_due_at : String
  pub lifecycle_state : Lifecycle
  pub sensitivity : Sensitivity
  pub status : String
  pub allowed_surfaces : List String
  pub allowed_exports : List String
  pub metadata : List (String × Metadata)
  pub linked_instruction_ids : Option (List String)
  pub has_instruction : Bool

abbrev pub is_error : Severity → Bool
is_error error = true
is_error warning = false

abbrev pub issue : Severity → String → String → String → String → Issue
issue severity code path message stable_id = record {
  severity = severity;
  issue_code = code;
  path = path;
  message = message;
  stable_id = some stable_id;
}

-- `assets.${index}.${rest}`
abbrev pub at_asset : ℕ → String → String
at_asset index rest = text "assets." (decimal index) (text "." rest "")

-- `if (condition) issues.push(…)`
abbrev pub when : Bool → Issue → List Issue
when true i = i ∷ []
when false i = []

abbrev pub is_public_demo : Sensitivity → Bool
is_public_demo public_demo = true
is_public_demo _ = false

abbrev pub is_active_state : Lifecycle → Bool
is_active_state active = true
is_active_state _ = false

abbrev pub is_bare {ℓ} : {A : Type ℓ} → List A → Bool
is_bare [] = true
is_bare (_ ∷ _) = false

unfoldable pub validate_allowed_surfaces : Asset → ℕ → List Issue
validate_allowed_surfaces a index =
    when (not (is_bare a.allowed_exports) && not (includes "export" a.allowed_surfaces)) (
      issue warning "surface.export_missing" (at_asset index "allowedSurfaces")
        "Assets with allowedExports should normally include the export surface" a.stable_id)

-- the packages that a non-public asset must not be in
unfoldable pub leaked_packages : Asset → List String → List String
leaked_packages a packages =
    filter (λ p. includes p packages && not (is_public_demo a.sensitivity)) a.allowed_exports

unfoldable pub validate_restricted_exports : Asset → ℕ → List String → List Issue
unfolding leaked_packages
validate_restricted_exports a index packages = when (not (is_bare (leaked_packages a packages))) (
    issue error "export.restricted_leakage" (at_asset index "allowedExports")
      (text "Non-public asset is allowed in public export package(s): "
        (join ", " (leaked_packages a packages)) "")
      a.stable_id)

abbrev pub searchable_surfaces : List String
searchable_surfaces = "api" ∷ "cli" ∷ "mcp" ∷ "web" ∷ []

unfoldable pub validate_search_eligibility : Asset → ℕ → List Issue
validate_search_eligibility a index =
    when
      (is_active_state a.lifecycle_state
        && a.status == "approved"
        && not (any (λ s. includes s searchable_surfaces) a.allowed_surfaces)
        && is_bare a.allowed_exports)
      (issue warning "search.not_retrievable" (at_asset index "allowedSurfaces")
        "Approved active asset is not available to retrieval or export surfaces" a.stable_id)

-- the loop over the linked ids: `seen` is `uniqueIds`, `k` the index
unfoldable pub linked_duplicates : String → ℕ → List String → ℕ → List String → List Issue
linked_duplicates stable_id index seen k [] = []
linked_duplicates stable_id index seen k (id ∷ ids) =
    when (includes id seen) (
      issue warning "document.linked_instruction_duplicate"
        (at_asset index (text "humanDocument.linkedInstructionIds." (decimal k) ""))
        (text "Duplicate linked instruction ID " id "") stable_id)
    ++ linked_duplicates stable_id index (id ∷ seen) (suc k) ids

abbrev pub linked_ids : Asset → List String
linked_ids a = elim a.linked_instruction_ids [ none ↦ [] | some ids ↦ ids ]

-- what follows the loop
abbrev pub linked_verdict : Asset → ℕ → Issue
linked_verdict a index =
    if a.has_instruction
    then issue warning "document.linked_instruction_unverified"
        (at_asset index "humanDocument.linkedInstructionIds")
        "Linked instruction IDs cannot be fully verified until imported instruction records have database IDs"
        a.stable_id
    else issue error "document.linked_instruction_missing"
        (at_asset index "humanDocument.linkedInstructionIds")
        "Human document links instruction IDs, but this asset does not define an instruction object"
        a.stable_id

unfoldable pub validate_human_document_instruction_links : Asset → ℕ → List Issue
unfolding linked_duplicates
validate_human_document_instruction_links a index =
    if is_bare (linked_ids a)
    then []
    else linked_duplicates a.stable_id index [] 0 (linked_ids a) ++ linked_verdict a index ∷ []

-- `new Map()` from stable ids to indexes
abbrev pub first_index : String → ℕ → List Asset → Option ℕ
first_index id k [] = none
first_index id k (a ∷ as') = if a.stable_id == id then some k else first_index id (suc k) as'

-- The loop of `validateStableIdUniqueness`: `before` is what it has visited, `k` the index.
unfoldable pub duplicates : List Asset → ℕ → List Asset → List Issue
duplicates before k [] = []
duplicates before k (a ∷ rest) =
    elim (first_index a.stable_id 0 before) [
      | none ↦ []
      | some first ↦
          issue error "stable_id.duplicate" (at_asset k "stableId")
            (text "Duplicate stableId also appears at " (at_asset first "stableId") "") a.stable_id
          ∷ []
    ]
    ++ duplicates (before ++ a ∷ []) (suc k) rest

unfoldable pub validate_stable_id_uniqueness : List Asset → List Issue
unfolding duplicates
validate_stable_id_uniqueness = duplicates [] 0

abbrev pub internal_reference_keys : List String
internal_reference_keys =
    "relatedStableIds" ∷ "dependsOnStableIds" ∷ "linkedStableIds" ∷ "supersedesStableIds" ∷ []

-- `asset.metadata[key]`
abbrev pub field : String → List (String × Metadata) → Metadata
field key [] = other
field key ((name, value) ∷ rest) = if name == key then value else field key rest

abbrev pub stable_ids : List Asset → List String
stable_ids = map (λ a. a.stable_id)

-- one entry of a list of references
abbrev pub reference_issues : List String → String → String → Option String → List Issue
reference_issues ids stable_id path none =
    issue error "reference.invalid" path "Internal stable ID references must be strings" stable_id
    ∷ []
reference_issues ids stable_id path (some r) = when (not (includes r ids)) (
    issue error "reference.missing" path
      (text "Referenced asset " r " is not present in this validation set") stable_id)

unfoldable pub array_issues :
    List String → String → ℕ → String → ℕ → List (Option String) → List Issue
array_issues ids stable_id index key k [] = []
array_issues ids stable_id index key k (r ∷ rs) =
    reference_issues ids stable_id (at_asset index (text "metadata." key (text "." (decimal k) "")))
      r
    ++ array_issues ids stable_id index key (suc k) rs

abbrev pub value_issues : List String → String → ℕ → String → Metadata → List Issue
value_issues ids stable_id index key (array rs) = array_issues ids stable_id index key 0 rs
value_issues ids stable_id index key _ = []

unfoldable pub key_issues : List String → Asset → ℕ → List String → List Issue
unfolding array_issues
key_issues ids a index [] = []
key_issues ids a index (key ∷ keys) =
    value_issues ids a.stable_id index key (field key a.metadata) ++ key_issues ids a index keys

unfoldable pub references_from : List String → ℕ → List Asset → List Issue
unfolding key_issues
references_from ids k [] = []
references_from ids k (a ∷ as') =
    key_issues ids a k internal_reference_keys ++ references_from ids (suc k) as'

unfoldable pub validate_internal_references : List Asset → List Issue
unfolding references_from
validate_internal_references assets = references_from (stable_ids assets) 0 assets
