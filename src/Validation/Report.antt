-- ===== src/Validation/Report.antt =====
-- packages/validation/src/index.ts: `validateReviewDate` and `validateAssetCollection`. The records are
-- given as the schema has judged them, and the clock as a day.
pub mod Checks
pub mod Sound
use forgetbase.Prelude.{
  codes_below, ℕ, suc, ◌+◌, String, Bool, true, false, not, ◌&&◌, ◌||◌, Option, none, some, List,
  [], ◌∷◌, ◌++◌, map, filter, all, length, if◌then◌else◌, nat_eq, ltb, ◌==◌, text, decimal, join,
  codes, is_filled, opt_filled,
}
use forgetbase.Validation.{
  Severity, Issue, Asset, error, warning, is_error, issue, at_asset, when,
  validate_allowed_surfaces, validate_restricted_exports, validate_search_eligibility,
  validate_human_document_instruction_links, validate_stable_id_uniqueness,
  validate_internal_references,
}
use forgetbase.Validation.Dates.{Day, normalize_date_only, date_text}
use forgetbase.Validation.Navigation.{validate_reader_navigation}

-- A record of the collection: what `safeParse` makes of it, or its issues, each with its path and its
-- message, and what `readStableId` finds.
pub data Entry : Type 0 where
  parsed : Asset → Entry
  rejected : (stable_id : Option String) (problems : List (List String × String)) → Entry

unfoldable pub validate_review_date : Asset → ℕ → String → List Issue
unfolding normalize_date_only codes_below
validate_review_date a index as_of = elim (normalize_date_only a.review_due_at) [
  | none ↦
      issue error "review.invalid_date" (at_asset index "reviewDueAt")
        "reviewDueAt must be a valid YYYY-MM-DD date" a.stable_id
      ∷ []
  | some review_date ↦ when (codes_below (codes review_date) (codes as_of)) (
      issue warning "review.stale" (at_asset index "reviewDueAt")
        (text "reviewDueAt " review_date (text " is before validation date " as_of "")) a.stable_id)
]

-- `normalizeDateOnly(options.asOf ?? new Date()) ?? normalizeDateOnly(new Date())`
unfoldable pub as_of_date : Option String → Day → String
unfolding normalize_date_only
as_of_date none today = date_text today
as_of_date (some s) today = elim (normalize_date_only s) [ none ↦ date_text today | some d ↦ d ]

abbrev pub public_packages : Option (List String) → List String
public_packages none = "demo-agent-pack" ∷ "public-demo" ∷ []
public_packages (some packages) = packages

-- the checks of one asset
unfoldable pub asset_issues : Asset → ℕ → String → List String → List Issue
unfolding validate_review_date
asset_issues a index as_of packages =
    validate_review_date a index as_of
    ++ validate_allowed_surfaces a index
    ++ validate_restricted_exports a index packages
    ++ validate_search_eligibility a index
    ++ validate_human_document_instruction_links a index

-- one issue of the schema; `pathPrefix` and the path joined by points
abbrev pub schema_issue : ℕ → Option String → List String × String → Issue
schema_issue index stable_id problem = record {
  severity = error;
  issue_code = "schema.invalid";
  path = join "." (text "assets." (decimal index) "" ∷ problem.0);
  message = problem.1;
  stable_id = stable_id;
}

-- the loop over the records
unfoldable pub record_issues : ℕ → String → List String → List Entry → List Issue
unfolding asset_issues
record_issues index as_of packages [] = []
record_issues index as_of packages (parsed a ∷ rest) =
    asset_issues a index as_of packages ++ record_issues (suc index) as_of packages rest
record_issues index as_of packages (rejected stable_id problems ∷ rest) =
    map (schema_issue index stable_id) problems ++ record_issues (suc index) as_of packages rest

-- `parsedAssets`
abbrev pub parsed_assets : List Entry → List Asset
parsed_assets [] = []
parsed_assets (parsed a ∷ rest) = a ∷ parsed_assets rest
parsed_assets (rejected _ _ ∷ rest) = parsed_assets rest

abbrev pub is_warning : Severity → Bool
is_warning warning = true
is_warning error = false

abbrev pub count_of {ℓ} : {A : Type ℓ} → (A → Bool) → List A → ℕ
count_of p xs = length (filter p xs)

-- `AssetValidationReport`, without the time of the check
pub record ValidationReport : Type 0 where
  pub is_ok : Bool
  pub as_of : String
  pub asset_count : ℕ
  pub error_count : ℕ
  pub warning_count : ℕ
  pub stale_count : ℕ
  pub issues : List Issue

abbrev pub report : String → ℕ → List Issue → ValidationReport
report as_of count issues = record {
  is_ok = nat_eq (count_of (λ i. is_error i.severity) issues) 0;
  as_of = as_of;
  asset_count = count;
  error_count = count_of (λ i. is_error i.severity) issues;
  warning_count = count_of (λ i. is_warning i.severity) issues;
  stale_count = count_of (λ i. i.issue_code == "review.stale") issues;
  issues = issues;
}

-- `validationIssueSchema`
abbrev pub is_valid_issue : Issue → Bool
is_valid_issue i =
    is_filled i.issue_code && is_filled i.path && is_filled i.message && opt_filled i.stable_id

-- `assetValidationReportSchema.parse`: the report, or nothing when the schema throws
abbrev pub parse_report : ValidationReport → Option ValidationReport
parse_report r = if is_filled r.as_of && all is_valid_issue r.issues then some r else none

-- all issues of a collection; nothing only when the check of the navigation were without fuel
unfoldable pub collection_issues : String → List String → List Entry → Option (List Issue)
unfolding record_issues
collection_issues as_of packages entries =
    elim (validate_reader_navigation (parsed_assets entries)) [
      | none ↦ none
      | some navigation ↦ some (
          record_issues 0 as_of packages entries
          ++ validate_stable_id_uniqueness (parsed_assets entries)
          ++ validate_internal_references (parsed_assets entries)
          ++ navigation)
    ]

unfoldable pub validate_asset_collection :
    List Entry → Option String → Option (List String) → Day → Option ValidationReport
unfolding collection_issues as_of_date
validate_asset_collection entries as_of packages today =
    let date = as_of_date as_of today in
    elim (collection_issues date (public_packages packages) entries) [
      | none ↦ none
      | some issues ↦ parse_report (report date (length entries) issues)
    ]
