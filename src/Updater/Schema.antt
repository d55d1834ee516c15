-- ===== src/Updater/Schema.antt =====
-- The checks of the zod schemas of packages/schema/src/index.ts that the updater runs on what it
-- stores. What has the declared type needs no check; the formats of a nested descriptor and release
-- are functions of the host.
use forgetbase.Prelude.{
  Bool, true, ◌&&◌, Option, none, some, map, all, leb, if◌then◌else◌, Result, ok, err, ◌>>◌,
  reject_if, not, is_filled, opt_filled, is_sha256, is_distinct,
}
use forgetbase.Updater.Types.{
  Manifest, RecoveryPoint, Descriptor, Approval, Job, AvailableUpdate, Ledger,
}

pub record Formats : Type 0 where
  pub descriptor_ok : Descriptor → Bool
  pub release_ok : Manifest → Bool

module _ (f : Formats) where
  abbrev pub approval_ok : Option Approval → Bool
  approval_ok none = true
  approval_ok (some a) = is_sha256 a.request_digest && f.descriptor_ok a.descriptor

  -- `updateJobSchema`
  unfoldable pub job_ok : Job → Bool
  job_ok j =
      is_filled j.id
      && is_filled j.current_version
      && is_filled j.target_version
      && opt_filled j.manifest_key_id
      && opt_filled j.recovery_point_id
      && leb j.progress_percent 100
      && is_filled j.message
      && opt_filled j.error_code
      && approval_ok j.approval

  abbrev pub opt_release_ok : Option Manifest → Bool
  opt_release_ok none = true
  opt_release_ok (some m) = f.release_ok m

  abbrev pub available_ok : Option AvailableUpdate → Bool
  available_ok none = true
  available_ok (some a) =
      is_filled a.reason && opt_filled a.manifest_key_id && opt_release_ok a.release

-- `recoveryPointSchema`
unfoldable pub point_ok : RecoveryPoint → Bool
point_ok p =
    is_filled p.id
    && is_filled p.version
    && is_filled p.source_revision
    && opt_filled p.database_schema_version
    && all is_filled p.image_references
    && opt_filled p.backup_path
    && opt_filled p.configuration_path
    && opt_filled p.attachment_snapshot_id

unfoldable pub parse_job : Formats → Job → Result Job
parse_job f j = if job_ok f j then ok j else err "Invalid update job"

unfoldable pub parse_point : RecoveryPoint → Result RecoveryPoint
parse_point p = if point_ok p then ok p else err "Invalid recovery point"

-- `parseState` of packages/updater/src/store.ts
unfoldable pub parse_state : Formats → Ledger → Result Ledger
unfolding job_ok point_ok
parse_state f l = do
  reject_if (not (all (job_ok f) l.jobs && all point_ok l.recovery_points)) "Invalid ledger entry"
  reject_if
      (not
        (is_distinct (map (λ j. j.id) l.jobs) && is_distinct (map (λ p. p.id) l.recovery_points)))
      "Duplicate updater ledger identifier"
  reject_if (not (available_ok f l.available_update)) "Invalid available update"
  ok l
