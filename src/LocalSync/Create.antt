-- ===== src/LocalSync/Create.antt =====
-- packages/local-sync/src/index.ts: `createLocalSyncManifestBundle`. The signer, and the text of a time,
-- are arguments.
pub mod Signed
use forgetbase.Prelude.{
  ℕ, zero, suc, ◌+◌, ◌*◌, String, Bool, true, false, not, ◌&&◌, ◌||◌, Option, none, some, List, [],
  ◌∷◌, ◌++◌, map, any, all, length, is_identifier, take, drop, if◌then◌else◌, nat_eq, ltb, leb,
  text, includes, is_filled, is_some, opt_eq, text_length, codes, is_hex, ◌==◌, Result, ok, err,
  throw_first, ◌>>◌, ◌>>=◌,
}
use forgetbase.LocalSync.{
  SyncRecord, Mode, full, delta, unchanged, Payload, Page, SyncHost, hash_of, expected_hash,
  sort_by, normalize_removed_stable_ids, compute_entitlement_hash, compute_record_set_hash,
  signature_input, local_sync_max_records, local_sync_max_records_per_page,
  local_sync_max_record_bytes, local_sync_max_snapshot_bytes,
}
use forgetbase.LocalSync.SourceRef.{is_unsafe_ref, codes_eq}

-- `LocalSyncSigner`
pub record Signer : Type 0 where
  pub key_id : String
  pub sign : String → String

pub record Delta : Type 0 where
  pub base_record_set_hash : String
  pub records : List SyncRecord
  pub removed_stable_ids : List String

-- `CreateLocalSyncManifestOptions`, with the defaults filled in; `records` are parsed
pub record CreateOptions : Type 0 where
  pub server_id : String
  pub tenant_id : String
  pub principal_type : String
  pub principal_id : String
  pub authorization_epoch : ℕ
  pub content_generation : ℕ
  pub records : List SyncRecord
  pub issued_at : ℕ
  pub lease_duration_seconds : ℕ
  pub minimum_client_version : String
  pub allowed_sensitivities : List String
  pub serialization_revision : Option ℕ
  pub snapshot_id : String
  pub known_authorization_epoch : Option ℕ
  pub known_content_generation : Option ℕ
  pub known_record_set_hash : Option String
  pub records_per_page : ℕ
  pub changes : Option Delta

-- `Number.isSafeInteger` of a natural number
abbrev pub is_safe : Option ℕ → Bool
is_safe none = true
is_safe (some n) = leb n 9007199254740991

abbrev pub option_guards : CreateOptions → List (Bool × String)
option_guards o =
    (ltb local_sync_max_records (length o.records), "Local sync supports at most 5000 records")
    ∷ (
      not (is_safe o.serialization_revision),
      "serializationRevision must be a non-negative safe integer",
    )
    ∷ (ltb o.authorization_epoch 1, "authorizationEpoch must be a positive integer")
    ∷ (ltb o.content_generation 1, "contentGeneration must be a positive integer")
    ∷ (ltb o.lease_duration_seconds 1, "leaseDurationSeconds must be a positive integer")
    ∷ (
      ltb o.records_per_page 1 || ltb local_sync_max_records_per_page o.records_per_page,
      "maxRecordsPerPage must be between 1 and 100",
    )
    ∷ []

-- `known === value` of numbers
abbrev pub is_known : Option ℕ → ℕ → Bool
is_known none value = false
is_known (some n) value = nat_eq n value

abbrev pub is_known_hash : Option String → String → Bool
is_known_hash none value = false
is_known_hash (some h) value = h == value

-- `localSyncDigestSchema`
abbrev pub is_digest : String → Bool
is_digest s =
    nat_eq (length (codes s)) 71
    && codes_eq (take 7 (codes s)) (codes "sha256:")
    && all is_hex (drop 7 (codes s))

-- `new Map(records.map(…)).get(stableId)`, where the last of several wins
unfoldable pub current_record : String → List SyncRecord → Option SyncRecord
current_record id [] = none
current_record id (r ∷ rs) = elim (current_record id rs) [
  | some later ↦ some later
  | none ↦ if r.asset.stable_id == id then some r else none
]

abbrev pub is_outside : List SyncRecord → SyncRecord → Bool
is_outside records r = elim (current_record r.asset.stable_id records) [
  | none ↦ true
  | some c ↦ not (c.payload_hash == r.payload_hash)
]

-- The slices of `size` records; a list has no more of them than records, so that many rounds are enough.
unfoldable pub chunks_from : ℕ → ℕ → List SyncRecord → List (List SyncRecord)
chunks_from zero size records = []
chunks_from (suc fuel) size [] = []
chunks_from (suc fuel) size (r ∷ rs) =
    take size (r ∷ rs) ∷ chunks_from fuel size (drop size (r ∷ rs))

unfoldable pub chunks_of : ℕ → List SyncRecord → List (List SyncRecord)
unfolding chunks_from
chunks_of size records = elim (chunks_from (length records) size records) [
  | [] ↦ [] ∷ []
  | chunk ∷ chunks ↦ chunk ∷ chunks
]

-- what a manifest says, apart from its pages
pub record Plan : Type 0 where
  pub records : List SyncRecord
  pub mode : Mode
  pub manifest_records : List SyncRecord
  pub removed : List String
  pub base_hash : Option String

abbrev pub all_digests : Option String → Bool
all_digests none = true
all_digests (some s) = is_digest s

-- `Math.ceil(localSyncMaxRecords / localSyncMaxRecordsPerPage)`
abbrev pub max_pages : ℕ
max_pages = 50

module _ (host : SyncHost) where
  abbrev pub source_guards : ℕ → SyncRecord → List (Bool × String)
  source_guards bytes r =
      let record_bytes = host.byte_length (host.json (host.record_value r)) in
      (
        ltb local_sync_max_record_bytes record_bytes
            || ltb local_sync_max_snapshot_bytes (bytes + record_bytes),
        "Local sync snapshot exceeds the signed payload safety limit",
      )
      ∷ (
        not (r.payload_hash == expected_hash host r),
        text "Local sync record " r.record_id " has an invalid payload hash",
      )
      ∷ (
        is_unsafe_ref host r.asset.source_ref,
        "Local sync sourceRef is not a safe governed provenance reference",
      )
      ∷ []

  -- the loop over the sorted records
  unfoldable pub check_sources : ℕ → List SyncRecord → Result (Unit {0})
  check_sources bytes [] = ok tt
  check_sources bytes (r ∷ rs) =
      throw_first (source_guards bytes r)
      >> check_sources (bytes + host.byte_length (host.json (host.record_value r))) rs

  abbrev pub is_nothing_new : CreateOptions → List SyncRecord → Bool
  is_nothing_new o records =
      is_known o.known_authorization_epoch o.authorization_epoch
      && is_known o.known_content_generation o.content_generation
      && is_known_hash o.known_record_set_hash (compute_record_set_hash host records)

  -- the mode, and what goes with it
  unfoldable pub plan_manifest : CreateOptions → List SyncRecord → Result Plan
  unfolding current_record normalize_removed_stable_ids
  plan_manifest o records =
      if is_nothing_new o records
      then ok (record {
        records = records;
        mode = unchanged;
        manifest_records = [];
        removed = [];
        base_hash = none;
      })
      else elim o.changes [
        | none ↦ ok (record {
          records = records;
          mode = full;
          manifest_records = records;
          removed = [];
          base_hash = none;
        })
        | some d ↦ normalize_removed_stable_ids d.removed_stable_ids >>= λ removed.
            throw_first (
              (not (is_digest d.base_record_set_hash), "Invalid string")
              ∷ (
                any (is_outside records) d.records,
                "Local sync delta contains a record outside the final record set",
              )
              ∷ (
                any (λ id. is_some (current_record id records)) removed,
                "Local sync delta removes a record that remains in the final record set",
              )
              ∷ [])
            >> ok (record {
              records = records;
              mode = delta;
              manifest_records = d.records;
              removed = removed;
              base_hash = some d.base_record_set_hash;
            })
      ]

  -- `localSyncManifestPagePayloadSchema`, of what its type does not say
  unfoldable pub is_valid_payload : Payload → Bool
  is_valid_payload p =
      p.protocol_version == "1"
      && is_filled p.server_id
      && is_filled p.tenant_id
      && includes p.principal_type ("user" ∷ "service-account" ∷ [])
      && is_filled p.principal_id
      && is_filled p.snapshot_id
      && leb 1 p.authorization_epoch
      && leb 1 p.content_generation
      && is_digest p.entitlement_hash
      && is_digest p.record_set_hash
      && all_digests p.base_record_set_hash
      && host.is_datetime p.issued_at
      && host.is_datetime p.server_time
      && host.is_datetime p.lease_expires_at
      && is_filled p.minimum_client_version
      && leb 1 (length p.allowed_sensitivities)
      && all (λ s. includes s ("public-demo" ∷ "internal" ∷ [])) p.allowed_sensitivities
      && leb 1 p.page_count
      && leb p.page_count max_pages
      && leb p.record_count local_sync_max_records
      && leb p.changed_record_count local_sync_max_records
      && leb p.removal_count local_sync_max_records
      && all_digests p.previous_page_hash
      && leb (length p.records) local_sync_max_records_per_page
      && all host.is_record p.records
      && leb (length p.removed_stable_ids) local_sync_max_records
      && all (λ id. is_filled id && leb (text_length id) 250) p.removed_stable_ids

  -- `localSyncManifestPageSchema`, apart from the payload
  abbrev pub is_valid_page : Page → Bool
  is_valid_page page =
      is_digest page.page_hash && is_filled page.signing_key_id && is_identifier page.signature

  module _ (signer : Signer) (iso : ℕ → String) where
    abbrev pub payload_of : CreateOptions → Plan → ℕ → ℕ → Option String → List SyncRecord → Payload
    payload_of o plan pages index previous records = record {
      protocol_version = "1";
      mode = plan.mode;
      server_id = o.server_id;
      tenant_id = o.tenant_id;
      principal_type = o.principal_type;
      principal_id = o.principal_id;
      snapshot_id = o.snapshot_id;
      authorization_epoch = o.authorization_epoch;
      content_generation = o.content_generation;
      entitlement_hash = compute_entitlement_hash host plan.records;
      record_set_hash = compute_record_set_hash host plan.records;
      serialization_revision = o.serialization_revision;
      base_record_set_hash = plan.base_hash;
      issued_at = iso o.issued_at;
      server_time = iso o.issued_at;
      lease_expires_at = iso (o.issued_at + o.lease_duration_seconds * 1000);
      minimum_client_version = o.minimum_client_version;
      allowed_sensitivities = o.allowed_sensitivities;
      page_index = index;
      page_count = pages;
      record_count = length plan.records;
      changed_record_count = length plan.manifest_records;
      removal_count = length plan.removed;
      previous_page_hash = previous;
      records = records;
      removed_stable_ids = if nat_eq index 0 then plan.removed else [];
    }

    abbrev pub page_of : Payload → Page
    page_of p = record {
      payload = p;
      page_hash = hash_of host (host.payload_value p);
      signing_key_id = signer.key_id;
      signature =
          signer.sign (signature_input host p (hash_of host (host.payload_value p)) signer.key_id);
    }

    -- the loop over the chunks
    unfoldable pub make_pages :
        CreateOptions → Plan → ℕ → ℕ → Option String → List (List SyncRecord) → Result (List Page)
    unfolding is_valid_payload
    make_pages o plan count index previous [] = ok []
    make_pages o plan count index previous (chunk ∷ chunks) =
        let page = page_of (payload_of o plan count index previous chunk) in
        throw_first (
          (not (is_valid_payload page.payload), "Invalid payload")
          ∷ (not (is_valid_page page), "Invalid page")
          ∷ [])
        >> (make_pages o plan count (suc index) (some page.page_hash) chunks >>= λ pages.
            ok (page ∷ pages))

    unfoldable pub create_manifest_bundle : CreateOptions → Result (List Page)
    unfolding check_sources plan_manifest chunks_of make_pages
    create_manifest_bundle o =
        let records = sort_by (λ r. r.asset.stable_id) o.records in
        throw_first (option_guards o)
        >> (check_sources 0 records
            >> (plan_manifest o records >>= λ plan.
                let chunks = chunks_of o.records_per_page plan.manifest_records in
                throw_first (
                  (
                    ltb max_pages (length chunks),
                    "Local sync manifest exceeds the maximum signed page count",
                  )
                  ∷ [])
                >> make_pages o plan (length chunks) 0 none chunks))
