-- ===== src/LocalSync/Verify.antt =====
-- packages/local-sync/src/index.ts: `verifyLocalSyncManifestBundle`.
pub mod Pages
pub mod Records
pub mod Accepted
use forgetbase.Prelude.{
  ℕ, zero, suc, ◌+◌, ◌-◌, ◌*◌, ◌/◌, max, String, Bool, true, false, not, ◌&&◌, ◌||◌, Option, none,
  some, List, [], ◌∷◌, ◌++◌, map, any, length, if◌then◌else◌, nat_eq, ltb, leb, text, includes,
  is_some, is_none, opt_eq, ◌==◌, Result, ok, err, throw_first, ◌>>◌, ◌>>=◌,
}
use forgetbase.LocalSync.Canonical.{quoted, array}
use forgetbase.LocalSync.{
  SyncRecord, Mode, full, delta, unchanged, Payload, Page, SyncHost, items, hash_of, expected_hash,
  normalize_removed_stable_ids, compute_entitlement_hash, compute_record_set_hash, signature_input,
}
use forgetbase.LocalSync.SourceRef.{is_unsafe_ref}

-- `LocalSyncConfiguration`
pub record Configuration : Type 0 where
  pub protocol_version : String
  pub server_id : String
  pub tenant_id : String
  pub principal_type : String
  pub principal_id : String
  pub signing_key_id : String
  pub signing_public_key : String
  pub lease_duration_seconds : ℕ
  pub allowed_sensitivities : List String
  pub max_records : ℕ
  pub max_records_per_page : ℕ
  pub max_record_bytes : ℕ
  pub max_snapshot_bytes : ℕ

-- `VerifyLocalSyncManifestOptions`, with the defaults filled in: the time, the clock skew in seconds, and
-- the high-water marks
pub record VerifyOptions : Type 0 where
  pub configuration : Configuration
  pub now : ℕ
  pub maximum_clock_skew_seconds : ℕ
  pub minimum_authorization_epoch : ℕ
  pub minimum_content_generation : ℕ

-- `VerifiedLocalSyncManifest`
pub record Verified : Type 0 where
  pub page : Page
  pub records : List SyncRecord
  pub removed_stable_ids : List String
  pub base_record_set_hash : Option String

-- A verified manifest, an error, or an error about pages that are all signed, with their epoch.
pub data VerifyOutcome : Type 0 where
  verified : Verified → VerifyOutcome
  rejected : (message : String) → VerifyOutcome
  trusted_error : (message : String) (authorization_epoch : ℕ) → VerifyOutcome

-- `left === right` on modes, numbers and optional numbers
abbrev pub mode_eq : Mode → Mode → Bool
mode_eq full full = true
mode_eq delta delta = true
mode_eq unchanged unchanged = true
mode_eq _ _ = false

abbrev pub revision_eq : Option ℕ → Option ℕ → Bool
revision_eq none none = true
revision_eq (some a) (some b) = nat_eq a b
revision_eq _ _ = false

-- `Math.ceil(a / b)`
abbrev pub ceil_div : ℕ → ℕ → ℕ
ceil_div a b = (a + b - 1) / b

module _ (host : SyncHost) where
  abbrev pub has_identity : Configuration → Page → Bool
  has_identity c page =
      page.payload.protocol_version == c.protocol_version
      && page.payload.server_id == c.server_id
      && page.payload.tenant_id == c.tenant_id
      && page.payload.principal_type == c.principal_type
      && page.payload.principal_id == c.principal_id
      && page.signing_key_id == c.signing_key_id

  abbrev pub is_signed : Configuration → Page → Bool
  is_signed c page =
      host.verifies c.signing_public_key
        (signature_input host page.payload page.page_hash page.signing_key_id) page.signature

  -- the guards of one page
  abbrev pub signature_guards : Configuration → Page → List (Bool × String)
  signature_guards c page =
      (
        not (has_identity c page),
        "Local sync manifest identity does not match the pinned configuration",
      )
      ∷ (
        not (page.page_hash == hash_of host (host.payload_value page.payload)),
        "Local sync manifest page hash is invalid",
      )
      ∷ (not (is_signed c page), "Local sync manifest signature is invalid")
      ∷ []

  -- the first loop over the pages
  unfoldable pub check_signatures : Configuration → List Page → Result (Unit {0})
  check_signatures c [] = ok tt
  check_signatures c (page ∷ pages) =
      throw_first (signature_guards c page) >> check_signatures c pages

  -- `Math.max(...bundle.pages.map((page) => page.authorizationEpoch))`
  abbrev pub max_epoch : List Page → ℕ
  max_epoch [] = 0
  max_epoch (page ∷ pages) = max page.payload.authorization_epoch (max_epoch pages)

  -- the checks of the first page
  abbrev pub first_guards : VerifyOptions → Payload → ℕ → List (Bool × String)
  first_guards o first pages =
      let c = o.configuration in
      let server_time = host.time_of first.server_time in
      let lease_expires_at = host.time_of first.lease_expires_at in
      (not (nat_eq first.page_count pages), "Local sync page count does not match the bundle")
      ∷ (
        ltb (o.now + o.maximum_clock_skew_seconds * 1000) server_time,
        "Signed server time is too far in the future",
      )
      ∷ (leb lease_expires_at o.now, "Local sync manifest lease has expired")
      ∷ (
        leb lease_expires_at server_time
            || ltb (c.lease_duration_seconds * 1000) (lease_expires_at - server_time),
        "Local sync manifest lease exceeds the pinned configuration",
      )
      ∷ (
        ltb c.max_records first.record_count,
        "Local sync manifest record count exceeds the pinned configuration",
      )
      ∷ (
        ltb (ceil_div c.max_records c.max_records_per_page) first.page_count,
        "Local sync manifest page count exceeds the pinned configuration",
      )
      ∷ (
        ltb first.authorization_epoch o.minimum_authorization_epoch,
        "Local sync manifest authorization epoch is older than the accepted high-water mark",
      )
      ∷ (
        ltb first.content_generation o.minimum_content_generation,
        "Local sync manifest content generation is older than the accepted high-water mark",
      )
      ∷ []

  abbrev pub texts_json : List String → String
  texts_json texts = host.json (array (items (map quoted texts)))

  abbrev pub same_metadata : Payload → Payload → Bool
  same_metadata page first =
      page.snapshot_id == first.snapshot_id
      && mode_eq page.mode first.mode
      && nat_eq page.authorization_epoch first.authorization_epoch
      && nat_eq page.content_generation first.content_generation
      && page.entitlement_hash == first.entitlement_hash
      && page.record_set_hash == first.record_set_hash
      && revision_eq page.serialization_revision first.serialization_revision
      && opt_eq page.base_record_set_hash first.base_record_set_hash
      && nat_eq page.record_count first.record_count
      && nat_eq page.changed_record_count first.changed_record_count
      && nat_eq page.removal_count first.removal_count
      && nat_eq page.page_count first.page_count
      && page.issued_at == first.issued_at
      && page.server_time == first.server_time
      && page.lease_expires_at == first.lease_expires_at
      && page.minimum_client_version == first.minimum_client_version

  -- the guards of one round of the second loop
  abbrev pub page_guards :
      Configuration → Payload → ℕ → Option String → Payload → List (Bool × String)
  page_guards c first index previous p =
      (
        not (nat_eq p.page_index index) || not (opt_eq p.previous_page_hash previous),
        "Local sync manifest page order or chain is invalid",
      )
      ∷ (
        ltb c.max_records_per_page (length p.records),
        "Local sync manifest page exceeds the pinned record limit",
      )
      ∷ (not (same_metadata p first), "Local sync manifest page metadata is inconsistent")
      ∷ (
        not (texts_json p.allowed_sensitivities == texts_json first.allowed_sensitivities)
            || not (texts_json p.allowed_sensitivities == texts_json c.allowed_sensitivities),
        "Local sync manifest sensitivity policy is inconsistent",
      )
      ∷ (
        ltb 0 index && ltb 0 (length p.removed_stable_ids),
        "Local sync removals must appear only on the first page",
      )
      ∷ []

  -- the second loop, with what it has pushed so far
  unfoldable pub gather :
      Configuration
      → Payload
      → ℕ
      → Option String
      → List SyncRecord
      → List String
      → List Page
      → Result (List SyncRecord × List String)
  gather c first index previous records removed [] = ok (records, removed)
  gather c first index previous records removed (page ∷ pages) =
      throw_first (page_guards c first index previous page.payload)
      >> gather c first (suc index) (some page.page_hash) (records ++ page.payload.records)
          (if nat_eq index 0 then removed ++ page.payload.removed_stable_ids else removed) pages

  abbrev pub is_ineligible : Configuration → SyncRecord → Bool
  is_ineligible c r =
      not (r.asset.tenant_id == c.tenant_id)
      || not (r.asset.lifecycle_state == "active")
      || not (r.asset.status == "approved")
      || not (includes r.asset.sensitivity c.allowed_sensitivities)
      || not (includes "local-cache" r.asset.allowed_surfaces)

  -- the guards of one record, given the bytes up to it and the ids before it
  abbrev pub record_guards :
      Configuration
      → List String
      → ℕ
      → List String
      → List String
      → SyncRecord
      → List (Bool × String)
  record_guards c removals bytes record_ids stable_ids r =
      let record_bytes = host.byte_length (host.json (host.record_value r)) in
      (
        ltb c.max_record_bytes record_bytes || ltb c.max_snapshot_bytes (bytes + record_bytes),
        "Local sync manifest payload exceeds the pinned byte limit",
      )
      ∷ (
        includes r.record_id record_ids || includes r.asset.stable_id stable_ids,
        "Local sync manifest contains duplicate record identity",
      )
      ∷ (
        includes r.asset.stable_id removals,
        "Local sync delta both changes and removes the same stable ID",
      )
      ∷ (
        is_ineligible c r,
        text "Local sync record " r.record_id " is not eligible for the pinned configuration",
      )
      ∷ (
        not (r.payload_hash == expected_hash host r),
        text "Local sync record " r.record_id " has an invalid payload hash",
      )
      ∷ (
        is_unsafe_ref host r.asset.source_ref,
        "Local sync sourceRef is not a safe governed provenance reference",
      )
      ∷ []

  -- the loop over the records
  unfoldable pub check_records :
      Configuration
      → List String
      → ℕ
      → List String
      → List String
      → List SyncRecord
      → Result (Unit {0})
  check_records c removals bytes record_ids stable_ids [] = ok tt
  check_records c removals bytes record_ids stable_ids (r ∷ rs) =
      throw_first (record_guards c removals bytes record_ids stable_ids r)
      >> check_records c removals (bytes + host.byte_length (host.json (host.record_value r)))
          (r.record_id ∷ record_ids) (r.asset.stable_id ∷ stable_ids) rs

  abbrev pub is_full : Mode → Bool
  is_full mode = mode_eq mode full

  abbrev pub is_delta : Mode → Bool
  is_delta mode = mode_eq mode delta

  -- what holds of a manifest that says that nothing has changed
  abbrev pub unchanged_guards : Payload → ℕ → List SyncRecord → List String → List (Bool × String)
  unchanged_guards first pages records removed =
      (
        not (nat_eq (length records) 0)
            || not (nat_eq (length removed) 0)
            || not (nat_eq pages 1)
            || is_some first.base_record_set_hash
            || not (nat_eq first.changed_record_count 0)
            || not (nat_eq first.removal_count 0),
        "An unchanged local sync manifest must not include records",
      )
      ∷ []

  abbrev pub count_guards : Payload → List SyncRecord → List String → List (Bool × String)
  count_guards first records removed =
      (
        not (nat_eq (length records) first.changed_record_count),
        "Local sync record count does not match the signed manifest",
      )
      ∷ (
        not (nat_eq (length removed) first.removal_count),
        "Local sync removal count does not match the signed manifest",
      )
      ∷ []

  abbrev pub mode_guards :
      Payload → List SyncRecord → List String → List String → List (Bool × String)
  mode_guards first records removed normalized =
      (
        not (texts_json normalized == texts_json removed),
        "Local sync removals are not in canonical order",
      )
      ∷ (
        is_full first.mode
            && (is_some first.base_record_set_hash
                || not (nat_eq (length removed) 0)
                || not (nat_eq (length records) first.record_count)),
        "A full local sync manifest has invalid delta metadata",
      )
      ∷ (
        is_delta first.mode && is_none first.base_record_set_hash,
        "A local sync delta is missing its base record-set hash",
      )
      ∷ []

  abbrev pub set_guards : Payload → List SyncRecord → List (Bool × String)
  set_guards first records =
      (
        is_full first.mode
            && (not (compute_entitlement_hash host records == first.entitlement_hash)
                || not (compute_record_set_hash host records == first.record_set_hash)),
        "Local sync manifest record-set hashes are invalid",
      )
      ∷ []

  -- the checks of what the pages contain
  unfoldable pub check_content :
      Configuration → Payload → ℕ → List SyncRecord → List String → Result (Unit {0})
  unfolding check_records normalize_removed_stable_ids
  check_content c first pages records removed =
      if mode_eq first.mode unchanged
      then throw_first (unchanged_guards first pages records removed)
      else throw_first (count_guards first records removed)
        >> (normalize_removed_stable_ids removed >>= λ normalized.
            throw_first (mode_guards first records removed normalized)
            >> (check_records c normalized 0 [] [] records
                >> throw_first (set_guards first records)))

  -- the `try` block
  unfoldable pub verify_content : VerifyOptions → Page → List Page → Result Verified
  unfolding gather check_content
  verify_content o first pages =
      throw_first (first_guards o first.payload (length pages))
      >> (gather o.configuration first.payload 0 none [] [] pages >>= λ (records, removed).
          check_content o.configuration first.payload (length pages) records removed
          >> ok (record {
            page = first;
            records = records;
            removed_stable_ids = removed;
            base_record_set_hash = first.payload.base_record_set_hash;
          }))

  abbrev pub key_guards : Configuration → List (Bool × String)
  key_guards c =
      (not (host.is_ed25519 c.signing_public_key), "Pinned local sync signing key is not Ed25519")
      ∷ []

  -- The pages are those that `localSyncManifestBundleSchema` has parsed.
  unfoldable pub verify_manifest_bundle : List Page → VerifyOptions → VerifyOutcome
  unfolding check_signatures verify_content
  verify_manifest_bundle [] o = rejected "Local sync manifest has no pages"
  verify_manifest_bundle (first ∷ rest) o =
      let pages = first ∷ rest in
      elim (throw_first (key_guards o.configuration) >> check_signatures o.configuration pages) [
        | err message ↦ rejected message
        | ok _ ↦ elim (verify_content o first pages) [
          | err message ↦ trusted_error message (max_epoch pages)
          | ok manifest ↦ verified manifest
        ]
      ]
