-- ===== src/Updater/Types.antt =====
-- The updater's data: packages/schema/src/index.ts (releases, jobs, recovery points, approvals) and
-- the ledger of packages/updater/src/store.ts. A date-time is the number of its milliseconds.
use forgetbase.Prelude.{ℕ, String, Bool, true, false, Option, List}

-- `updateJobPhaseSchema`
pub data Phase : Type 0 where
  awaiting_approval denied expired queued scheduled preflight backing_up staging : Phase
  maintenance migrating starting verifying completed failed rolling_back rolled_back : Phase
  cancelled needs_attention : Phase

pub data Channel : Type 0 where
  stable beta nightly : Channel

pub data InstallationMode : Type 0 where
  source managed hosted : InstallationMode

pub data Compatibility : Type 0 where
  application_only additive destructive : Compatibility

pub data RollbackMode : Type 0 where
  application database_restore platform_managed unavailable : RollbackMode

pub data Risk : Type 0 where
  low medium high critical : Risk

pub data Component : Type 0 where
  api web worker migrate proxy updater : Component

pub data RecoveryComponent : Type 0 where
  database configuration attachments : RecoveryComponent

pub data AttachmentMode : Type 0 where
  not_configured included external_snapshot_required : AttachmentMode

pub data Kind : Type 0 where
  update rollback : Kind

pub data Decision : Type 0 where
  approved denied : Decision

pub data FeedStatus : Type 0 where
  not_checked available current unreachable invalid disabled : FeedStatus

pub record Image : Type 0 where
  pub component : Component
  pub reference : String
  pub digest : String

pub record Notes : Type 0 where
  pub summary : String
  pub highlights : List String
  pub security : List String
  pub breaking : List String
  pub configuration : List String
  pub known_issues : List String

pub record Migration : Type 0 where
  pub compatibility : Compatibility
  pub target_schema_version : String
  pub migration_ids : List String

pub record Recovery : Type 0 where
  pub components : List RecoveryComponent
  pub attachment_mode : AttachmentMode

-- `releaseManifestSchema`, less the two literal fields
pub record Manifest : Type 0 where
  pub version : String
  pub channel : Channel
  pub published_at : ℕ
  pub source_revision : String
  pub min_updater_version : String
  pub upgrade_from : List String
  pub risk : Risk
  pub estimated_downtime_seconds : ℕ
  pub requires_backup : Bool
  pub rollback_mode : RollbackMode
  pub migration : Migration
  pub recovery : Recovery
  pub images : List Image
  pub notes : Notes
  pub revoked : Bool
  pub revocation_reason : Option String

-- `signedReleaseManifestSchema`
pub record Envelope : Type 0 where
  pub key_id : String
  pub signature : String
  pub manifest : Manifest

-- `productIdentitySchema`, less the two literal fields
pub record Identity : Type 0 where
  pub version : String
  pub source_revision : String
  pub built_at : Option ℕ
  pub channel : Channel
  pub installation_mode : InstallationMode
  pub database_schema_version : Option String
  pub updater_version : Option String
  pub is_managed : Bool

-- `recoveryPointSchema`
pub record RecoveryPoint : Type 0 where
  pub id : String
  pub created_at : ℕ
  pub version : String
  pub source_revision : String
  pub database_schema_version : Option String
  pub image_references : List String
  pub backup_path : Option String
  pub configuration_path : Option String
  pub attachment_snapshot_id : Option String
  pub verified : Bool
  pub protected : Bool
  pub size_bytes : Option ℕ

-- `updateApprovalDescriptorSchema`, less its literal field
pub record Descriptor : Type 0 where
  pub installation_id : String
  pub job_id : String
  pub kind : Kind
  pub requested_at : ℕ
  pub scheduled_for : Option ℕ
  pub expires_at : ℕ
  pub source_identity : Identity
  pub target_version : String
  pub automatic_rollback : Bool
  pub manifest_key_id : Option String
  pub manifest_digest : Option String
  pub release : Option Manifest
  pub recovery_point : Option RecoveryPoint
  pub recovery_receipt_digest : Option String
  pub confirm_data_loss_after : Option ℕ

pub record Approval : Type 0 where
  pub request_digest : String
  pub descriptor : Descriptor
  pub decision : Option Decision
  pub decided_at : Option ℕ
  pub consumed_at : Option ℕ

-- `HostDecision` of packages/updater/src/approval.ts, less its literal field; a time that
-- `Date.parse` does not read is `none`.
pub record HostDecision : Type 0 where
  pub installation_id : String
  pub job_id : String
  pub request_digest : String
  pub expires_at : ℕ
  pub decision : Decision
  pub decided_at : Option ℕ

-- a decision as `consume` stores it
pub record Consumption : Type 0 where
  pub decided : HostDecision
  pub consumed_at : Option ℕ

-- The files of `HostApprovalAuthority`: each decision and consumption by the id in its file's name.
pub record Vault : Type 0 where
  pub installation_id : Option String
  pub decisions : List (String × HostDecision)
  pub consumed : List (String × Consumption)

-- `updateJobSchema`
pub record Job : Type 0 where
  pub id : String
  pub kind : Kind
  pub phase : Phase
  pub requested_at : ℕ
  pub scheduled_for : Option ℕ
  pub started_at : Option ℕ
  pub completed_at : Option ℕ
  pub current_version : String
  pub target_version : String
  pub manifest_key_id : Option String
  pub recovery_point_id : Option String
  pub progress_percent : ℕ
  pub message : String
  pub error_code : Option String
  pub automatic_rollback : Bool
  pub writes_reopened : Bool
  pub approval : Option Approval

-- `availableUpdateSchema`
pub record AvailableUpdate : Type 0 where
  pub checked_at : ℕ
  pub update_available : Bool
  pub reason : String
  pub manifest_key_id : Option String
  pub release : Option Manifest

-- `PersistedUpdateState`
pub record Ledger : Type 0 where
  pub available_update : Option AvailableUpdate
  pub last_checked_at : Option ℕ
  pub feed_status : FeedStatus
  pub jobs : List Job
  pub recovery_points : List RecoveryPoint

-- `activePhases` of packages/updater/src/manager.ts
abbrev pub is_active : Phase → Bool
is_active awaiting_approval = true
is_active queued = true
is_active scheduled = true
is_active preflight = true
is_active backing_up = true
is_active staging = true
is_active maintenance = true
is_active migrating = true
is_active starting = true
is_active verifying = true
is_active rolling_back = true
is_active _ = false

-- `terminal` of packages/updater/src/store.ts
abbrev pub is_terminal : Phase → Bool
is_terminal completed = true
is_terminal failed = true
is_terminal rolled_back = true
is_terminal cancelled = true
is_terminal Phase.denied = true
is_terminal expired = true
is_terminal _ = false

-- the phases of a request that has not begun: `pending` of the manager, its first condition
abbrev pub is_waiting : Phase → Bool
is_waiting awaiting_approval = true
is_waiting scheduled = true
is_waiting queued = true
is_waiting _ = false

abbrev pub channel_eq : Channel → Channel → Bool
channel_eq stable stable = true
channel_eq beta beta = true
channel_eq nightly nightly = true
channel_eq _ _ = false

abbrev pub kind_eq : Kind → Kind → Bool
kind_eq update update = true
kind_eq rollback rollback = true
kind_eq _ _ = false

abbrev pub bool_eq : Bool → Bool → Bool
bool_eq true b = b
bool_eq false true = false
bool_eq false false = true
