-- ===== src/LocalSync.antt =====
-- packages/local-sync/src/index.ts: the records and pages of a local sync manifest, their hashes, and the
-- form of safe source references. What Node computes (SHA-256, signatures, the parsing of dates and URLs)
-- is an argument, a `SyncHost`.
pub mod Canonical
pub mod SourceRef
pub mod Create
pub mod Verify
pub mod Tokens
pub mod Tests
use forgetbase.Prelude.{
  ℕ, String, Bool, true, false, not, ◌&&◌, ◌||◌, Option, none, some, List, [], ◌∷◌, ◌++◌, map, any,
  length, if◌then◌else◌, nat_eq, ltb, text_length, text_below, codes, is_distinct, Result, ok, err,
  throw_first, ◌>>◌,
}
use forgetbase.LocalSync.Canonical.{
  Json, null, quoted, number, array, object, Items, item, no_items, Fields, entry, no_fields,
}

-- what the checks read of the asset of a `LocalSyncRecord`
pub record SyncAsset : Type 0 where
  pub stable_id : String
  pub tenant_id : String
  pub lifecycle_state : String
  pub status : String
  pub sensitivity : String
  pub allowed_surfaces : List String
  pub source_ref : Option String

-- `LocalSyncRecord`; `content` stands for what no check reads: the version, the instructions, the
-- documents and the other fields of the asset.
pub record SyncRecord : Type 0 where
  pub record_id : String
  pub asset : SyncAsset
  pub content : Json
  pub payload_hash : String

pub data Mode : Type 0 where
  full delta unchanged : Mode

-- `LocalSyncManifestPagePayload`
pub record Payload : Type 0 where
  pub protocol_version : String
  pub mode : Mode
  pub server_id : String
  pub tenant_id : String
  pub principal_type : String
  pub principal_id : String
  pub snapshot_id : String
  pub authorization_epoch : ℕ
  pub content_generation : ℕ
  pub entitlement_hash : String
  pub record_set_hash : String
  pub serialization_revision : Option ℕ
  pub base_record_set_hash : Option String
  pub issued_at : String
  pub server_time : String
  pub lease_expires_at : String
  pub minimum_client_version : String
  pub allowed_sensitivities : List String
  pub page_index : ℕ
  pub page_count : ℕ
  pub record_count : ℕ
  pub changed_record_count : ℕ
  pub removal_count : ℕ
  pub previous_page_hash : Option String
  pub records : List SyncRecord
  pub removed_stable_ids : List String

-- `LocalSyncManifestPage`, the payload with its hash and its signature
pub record Page : Type 0 where
  pub payload : Payload
  pub page_hash : String
  pub signing_key_id : String
  pub signature : String

-- what `new URL` makes of a text
pub record Url : Type 0 where
  pub hostname : String
  pub username : String
  pub password : String

-- `json` is `canonicalJson` of a value that it accepts, `payload_value` and the like give the value of
-- a record or a payload, `is_record` is `localSyncRecordSchema`, and times are in milliseconds from 1970 on.
pub record SyncHost : Type 0 where
  pub digest : String → String
  pub json : Json → String
  pub unsigned_value : SyncRecord → Json
  pub record_value : SyncRecord → Json
  pub payload_value : Payload → Json
  pub byte_length : String → ℕ
  pub time_of : String → ℕ
  pub parse_url : String → Option Url
  pub is_ed25519 : String → Bool
  pub is_datetime : String → Bool
  pub is_record : SyncRecord → Bool
  pub verifies : String → String → String → Bool

abbrev pub items : List Json → Items
items [] = no_items
items (v ∷ vs) = item v (items vs)

abbrev pub local_sync_max_records : ℕ
local_sync_max_records = 5000

abbrev pub local_sync_max_records_per_page : ℕ
local_sync_max_records_per_page = 100

abbrev pub local_sync_max_record_bytes : ℕ
local_sync_max_record_bytes = 2097152

abbrev pub local_sync_max_snapshot_bytes : ℕ
local_sync_max_snapshot_bytes = 104857600

-- `sort` by a key, which keeps the order of equal keys
abbrev pub insert_by {ℓ} : {A : Type ℓ} → (A → String) → A → List A → List A
insert_by key x [] = x ∷ []
insert_by key x (y ∷ ys) = if text_below (key y) (key x) then y ∷ insert_by key x ys else x ∷ y ∷ ys

abbrev pub sort_by {ℓ} : {A : Type ℓ} → (A → String) → List A → List A
sort_by key [] = []
sort_by key (x ∷ xs) = insert_by key x (sort_by key xs)

-- `/[\u0000-\u001f\u007f]/.test(text)`
abbrev pub has_control : List ℕ → Bool
has_control = any (λ c. ltb c 32 || nat_eq c 127)

abbrev pub is_bad_removal : String → Bool
is_bad_removal s = nat_eq (text_length s) 0 || ltb 250 (text_length s) || has_control (codes s)

unfoldable pub normalize_removed_stable_ids : List String → Result (List String)
normalize_removed_stable_ids values =
    let sorted = sort_by (λ s. s) values in
    throw_first (
      (
        ltb local_sync_max_records (length values),
        "Local sync delta supports at most 5000 removals",
      )
      ∷ (any is_bad_removal values, "Local sync delta contains an invalid removed stable ID")
      ∷ (not (is_distinct sorted), "Local sync delta contains duplicate removed stable IDs")
      ∷ [])
    >> ok sorted

module _ (host : SyncHost) where
  abbrev pub hash_of : Json → String
  hash_of v = host.digest (host.json v)

  -- `record.payloadHash === sha256Digest(canonicalJson(unsignedRecord(record)))`
  abbrev pub expected_hash : SyncRecord → String
  expected_hash r = hash_of (host.unsigned_value r)

  unfoldable pub compute_entitlement_hash : List SyncRecord → String
  compute_entitlement_hash records =
      hash_of (array (items (map quoted (sort_by (λ s. s) (map (λ r. r.asset.stable_id) records)))))

  abbrev pub identity_value : SyncRecord → Json
  identity_value r = object (
      entry "recordId" (quoted r.record_id) (entry "payloadHash" (quoted r.payload_hash) no_fields))

  unfoldable pub compute_record_set_hash : List SyncRecord → String
  compute_record_set_hash records =
      hash_of (array (items (map identity_value (sort_by (λ r. r.record_id) records))))

  -- `signatureInput`
  unfoldable pub signature_input : Payload → String → String → String
  signature_input payload page_hash signing_key_id = host.json (
      object (
        entry "domain" (quoted "forgetbase.local-sync.manifest-page.v1") (
          entry "payload" (host.payload_value payload) (
            entry "pageHash" (quoted page_hash)
              (entry "signingKeyId" (quoted signing_key_id) no_fields)))))
