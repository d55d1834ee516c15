-- ===== src/Validation/Tests.antt =====
-- Runs of the checks of a collection, and an instance of each of their theorems.
use forgetbase.Prelude.{
  codes_below, ℕ, String, ◌≡◌, ◌↔◌, ◌⊎◌, ◌<◌, refl, true, false, none, some, List, [], ◌∷◌, All,
  map, includes, if◌then◌else◌, ◌==◌, decimal, join,
}
use forgetbase.Validation.{
  Asset, word, active, public_demo, validate_allowed_surfaces, leaked_packages,
  validate_restricted_exports, validate_search_eligibility, linked_duplicates,
  validate_human_document_instruction_links, duplicates, validate_stable_id_uniqueness,
  array_issues, key_issues, references_from, validate_internal_references,
}
use forgetbase.Updater.Semver.{parse_int, parse_int_from, to_double}
use forgetbase.Validation.Dates.{
  Day, days_in_month, carry, make_date, date_parts, is_date, normalize_date_only, date_text,
}
use forgetbase.Validation.Dates.Calendar.{IsCalendarDay, normalize_date_only_iff}
use forgetbase.Validation.Navigation.{
  set_entry, lookup, parents_from, parent_of, parent_issues, is_present, next_id, slice_at, walk,
  members_from, cycle_members, cycle_issues, validate_reader_navigation,
}
use forgetbase.Validation.Navigation.Paths.{IsCyclic}
use forgetbase.Validation.Navigation.Cycles.{cycle_members_iff}
use forgetbase.Validation.Redaction.{
  RuleKind, email, phone, Options, options, has_kind, without_repeats, normalize_redaction_options,
  apply_rules, redact_text,
}
use forgetbase.Validation.Redaction.Findings.{
  redacts, finds, is_off, active_rules, redact_text-rules,
}
use forgetbase.Validation.Report.{
  Entry, parsed, rejected, ValidationReport, validate_review_date, as_of_date, public_packages,
  asset_issues, record_issues, collection_issues, report, validate_asset_collection,
}
use forgetbase.Validation.Report.Sound.{IsSoundCollection, validate_asset_collection-IsSound}

opened : Unit {0}
unfolding validate_allowed_surfaces leaked_packages validate_restricted_exports
    validate_search_eligibility linked_duplicates validate_human_document_instruction_links
    duplicates validate_stable_id_uniqueness array_issues key_issues references_from
    validate_internal_references parse_int parse_int_from to_double days_in_month carry make_date
    date_parts is_date normalize_date_only date_text set_entry lookup parents_from parent_of
    parent_issues is_present next_id slice_at walk members_from cycle_members cycle_issues
    validate_reader_navigation decimal join without_repeats normalize_redaction_options apply_rules
    redact_text codes_below validate_review_date as_of_date asset_issues record_issues
    collection_issues validate_asset_collection
opened = tt

leap_day : normalize_date_only "2024-02-29" ≡ some "2024-02-29"
unfolding opened
leap_day = refl

no_leap_day : normalize_date_only "2023-02-29" ≡ none
unfolding opened
no_leap_day = refl

-- A year below 100 is taken for one of the twentieth century, and refused.
early_year : normalize_date_only "0099-01-01" ≡ none
unfolding opened
early_year = refl

normalize_date_only_iff_example :
    ((normalize_date_only "2024-02-29" ≡ some "2024-02-29") ↔ IsCalendarDay 2024 2 29)
    × ((normalize_date_only "2024-02-29" ≡ none) ↔ (¬ IsCalendarDay 2024 2 29))
unfolding opened
normalize_date_only_iff_example = normalize_date_only_iff "2024-02-29" 2024 2 29 refl

-- an asset with a parent
abbrev page : String → String → Asset
page id parent = record {
  stable_id = id;
  review_due_at = "2027-01-31";
  lifecycle_state = active;
  sensitivity = public_demo;
  status = "approved";
  allowed_surfaces = "web" ∷ [];
  allowed_exports = [];
  metadata = ("readerParentId", word parent) ∷ [];
  linked_instruction_ids = none;
  has_instruction = false;
}

abbrev loop_of_two : List Asset
loop_of_two = page "a" "b" ∷ page "b" "c" ∷ page "c" "b" ∷ []

loop_run : cycle_members loop_of_two ≡ some ("b" ∷ "c" ∷ [])
unfolding opened
loop_run = refl

cycle_members_iff_example :
    (members : List String) × (cycle_members loop_of_two ≡ some members)
    × ((s : String) → (includes s members ≡ true) ↔ IsCyclic loop_of_two s)
cycle_members_iff_example = cycle_members_iff loop_of_two

-- one address that an expression finds
abbrev count_emails : RuleKind → String → ℕ
count_emails email s = if s == "me@example.org" then 1 else 0
count_emails _ s = 0

abbrev hide_email : RuleKind → String → String
hide_email email s = "[REDACTED_EMAIL]"
hide_email _ s = s

abbrev ask : Options
ask = options none (some (phone ∷ email ∷ phone ∷ []))

redact_text-rules_example :
    ((redact_text count_emails hide_email "me@example.org" ask).result ≡ (
      if is_off ask
      then "me@example.org"
      else redacts count_emails hide_email (active_rules ask) "me@example.org"))
    × ((redact_text count_emails hide_email "me@example.org" ask).findings ≡ (
        if is_off ask
        then []
        else finds count_emails hide_email (active_rules ask) "me@example.org"))
    × All
        (λ f. (0 < f.matches) × (has_kind f.kind (active_rules ask) ≡ true))
        (redact_text count_emails hide_email "me@example.org" ask).findings
    × (((redact_text count_emails hide_email "me@example.org" ask).redacted ≡ true)
        ⊎ ((redact_text count_emails hide_email "me@example.org" ask).result ≡ "me@example.org"))
redact_text-rules_example = redact_text-rules count_emails hide_email "me@example.org" ask

redact_run : (redact_text count_emails hide_email "me@example.org" ask).result ≡ "[REDACTED_EMAIL]"
unfolding opened
redact_run = refl

abbrev today : Day
today = record { year = 2026; month = 6; day = 16 }

abbrev pair : List Entry
pair = parsed (page "a" "b") ∷ parsed (record (page "b" "") { metadata = [] }) ∷ []

abbrev good_report : ValidationReport
good_report = report "2026-06-16" 2 []

pair_run : validate_asset_collection pair none none today ≡ some good_report
unfolding opened
pair_run = refl

validate_asset_collection-IsSound_example : IsSoundCollection (public_packages none) pair
unfolding opened
validate_asset_collection-IsSound_example =
    validate_asset_collection-IsSound pair none none today good_report refl refl

-- A record whose `stableId` is empty is rejected by the schema; the report about it is not one that its
-- own schema accepts.
empty_id :
    validate_asset_collection
      (rejected (some "") (("stableId" ∷ [], "Too small") ∷ []) ∷ [])
      none
      none
      today
    ≡ none
unfolding opened
empty_id = refl

-- After a rejected record, the path of a repeated id is that of the place among the accepted records.
abbrev shifted : List Entry
shifted =
    rejected none (([], "Invalid") ∷ [])
    ∷ parsed (record (page "b" "") { metadata = [] })
    ∷ parsed (record (page "b" "") { metadata = [] })
    ∷ []

shifted_paths :
    elim (collection_issues "2026-06-16" [] shifted) [ none ↦ [] | some is ↦ map (λ i. i.path) is ]
    ≡ "assets.0" ∷ "assets.1.stableId" ∷ []
unfolding opened
shifted_paths = refl
