-- ===== src/LocalSync/Tests.antt =====
-- Runs of the manifests of local sync, and an instance of each of their theorems.
use forgetbase.Prelude.{
  ℕ, zero, suc, String, ◌≡◌, refl, true, none, some, List, [], ◌∷◌, All, codes, decimal,
  codes_below, ok, ◌==◌,
}
use forgetbase.Updater.Semver.{parse_int, parse_int_from, to_double}
use forgetbase.LocalSync.Canonical.{null}
use forgetbase.LocalSync.{
  SyncRecord, full, Page, SyncHost, normalize_removed_stable_ids, compute_entitlement_hash,
  compute_record_set_hash, signature_input, sort_by,
}
use forgetbase.LocalSync.SourceRef.{segments, is_unsafe_ref}
use forgetbase.LocalSync.Create.{
  Signer, CreateOptions, Plan, current_record, chunks_from, chunks_of, check_sources, plan_manifest,
  is_valid_payload, make_pages, create_manifest_bundle,
}
use forgetbase.LocalSync.Create.Signed.{IsBundle, create_manifest_bundle-IsBundle}
use forgetbase.LocalSync.Verify.{
  Configuration, VerifyOptions, Verified, verified, check_signatures, gather, check_records,
  check_content, verify_content, verify_manifest_bundle,
}
use forgetbase.LocalSync.Verify.Pages.{IsAuthentic}
use forgetbase.LocalSync.Verify.Accepted.{
  IsAccepted, verify_manifest_bundle-IsAccepted, trusted_error-IsAuthentic, IsHighest,
}

abbrev zeros : String
zeros = "sha256:0000000000000000000000000000000000000000000000000000000000000000"

abbrev host : SyncHost
host = record {
  digest = λ s. zeros;
  json = λ v. "";
  unsigned_value = λ r. null;
  record_value = λ r. null;
  payload_value = λ p. null;
  byte_length = λ s. 1;
  time_of = λ s. parse_int (codes s);
  parse_url = λ s. none;
  is_ed25519 = λ k. true;
  is_datetime = λ s. true;
  is_record = λ r. true;
  verifies = λ key input signature. signature == "signed";
}

abbrev signer : Signer
signer = record { key_id = "key"; sign = λ input. "signed" }

abbrev note : String → SyncRecord
note id = record {
  record_id = id;
  asset = record {
    stable_id = id;
    tenant_id = "tenant";
    lifecycle_state = "active";
    status = "approved";
    sensitivity = "internal";
    allowed_surfaces = "local-cache" ∷ [];
    source_ref = some "docs/note.md";
  };
  content = null;
  payload_hash = zeros;
}

abbrev three : CreateOptions
three = record {
  server_id = "server";
  tenant_id = "tenant";
  principal_type = "user";
  principal_id = "me";
  authorization_epoch = 4;
  content_generation = 2;
  records = note "c" ∷ note "a" ∷ note "b" ∷ [];
  issued_at = 5000;
  lease_duration_seconds = 60;
  minimum_client_version = "1.0.0";
  allowed_sensitivities = "internal" ∷ [];
  serialization_revision = none;
  snapshot_id = "snapshot";
  known_authorization_epoch = none;
  known_content_generation = none;
  known_record_set_hash = none;
  records_per_page = 2;
  changes = none;
}

abbrev client : Configuration
client = record {
  protocol_version = "1";
  server_id = "server";
  tenant_id = "tenant";
  principal_type = "user";
  principal_id = "me";
  signing_key_id = "key";
  signing_public_key = "public";
  lease_duration_seconds = 60;
  allowed_sensitivities = "internal" ∷ [];
  max_records = 10;
  max_records_per_page = 2;
  max_record_bytes = 5;
  max_snapshot_bytes = 5;
}

-- a check of the manifest at a time
abbrev at : ℕ → VerifyOptions
at now = record {
  configuration = client;
  now = now;
  maximum_clock_skew_seconds = 300;
  minimum_authorization_epoch = 4;
  minimum_content_generation = 1;
}

opened : Unit {0}
unfolding parse_int parse_int_from to_double decimal codes_below normalize_removed_stable_ids
    compute_entitlement_hash compute_record_set_hash signature_input segments is_unsafe_ref
    current_record chunks_from chunks_of check_sources plan_manifest is_valid_payload make_pages
    create_manifest_bundle check_signatures gather check_records check_content verify_content
    verify_manifest_bundle
opened = tt

-- the page of a place
abbrev page : ℕ → List SyncRecord → Page
page index records = record {
  payload = record {
    protocol_version = "1";
    mode = full;
    server_id = "server";
    tenant_id = "tenant";
    principal_type = "user";
    principal_id = "me";
    snapshot_id = "snapshot";
    authorization_epoch = 4;
    content_generation = 2;
    entitlement_hash = zeros;
    record_set_hash = zeros;
    serialization_revision = none;
    base_record_set_hash = none;
    issued_at = "5000";
    server_time = "5000";
    lease_expires_at = "65000";
    minimum_client_version = "1.0.0";
    allowed_sensitivities = "internal" ∷ [];
    page_index = index;
    page_count = 2;
    record_count = 3;
    changed_record_count = 3;
    removal_count = 0;
    previous_page_hash = elim index [ zero ↦ none | suc _ ↦ some zeros ];
    records = records;
    removed_stable_ids = [];
  };
  page_hash = zeros;
  signing_key_id = "key";
  signature = "signed";
}

abbrev first_page : Page
first_page = page 0 (note "a" ∷ note "b" ∷ [])

abbrev last_page : Page
last_page = page 1 (note "c" ∷ [])

create_run : create_manifest_bundle host signer decimal three ≡ ok (first_page ∷ last_page ∷ [])
unfolding opened
create_run = refl

abbrev manifest : Verified
manifest = record {
  page = first_page;
  records = note "a" ∷ note "b" ∷ note "c" ∷ [];
  removed_stable_ids = [];
  base_record_set_hash = none;
}

verify_run : verify_manifest_bundle host (first_page ∷ last_page ∷ []) (at 6000) ≡ verified manifest
unfolding opened
verify_run = refl

create_manifest_bundle-IsBundle_example :
    (plan : Plan) × (plan_manifest host three (sort_by (λ r. r.asset.stable_id) three.records)
      ≡ ok plan)
    × IsBundle host signer decimal three plan (first_page ∷ last_page ∷ [])
unfolding opened
create_manifest_bundle-IsBundle_example =
    create_manifest_bundle-IsBundle host signer decimal three (first_page ∷ last_page ∷ []) refl

verify_manifest_bundle-IsAccepted_example :
    IsAccepted host (at 6000) first_page (last_page ∷ []) manifest
unfolding opened
verify_manifest_bundle-IsAccepted_example =
    verify_manifest_bundle-IsAccepted host (at 6000) first_page (last_page ∷ []) manifest refl

-- a minute later, when the lease has expired
trusted_error-IsAuthentic_example :
    All (IsAuthentic host client) (first_page ∷ last_page ∷ [])
    × IsHighest host (at 65000) 4 (first_page ∷ last_page ∷ [])
unfolding opened
trusted_error-IsAuthentic_example =
    trusted_error-IsAuthentic host (at 65000) (first_page ∷ last_page ∷ [])
      "Local sync manifest lease has expired" 4 refl
