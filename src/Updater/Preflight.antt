-- ===== src/Updater/Preflight.antt =====
-- packages/updater/src/manager.ts: `preflight`, less the labels and details of its checks.
pub mod Eligible
mod Tests
use forgetbase.Prelude.{
  text, ℕ, String, Bool, true, false, not, ◌&&◌, ◌||◌, Option, none, some, List, [], ◌∷◌, Result,
  ok, err, if◌then◌else◌, any, all, map, leb, is_none, is_some, opt_eq, ◌==◌, codes,
}
use forgetbase.Prelude.{◌>>=◌ as bind_result}
use forgetbase.Updater.Types.{
  Manifest, Identity, Job, Ledger, AvailableUpdate, Channel, InstallationMode, managed, hosted,
  Compatibility, application_only, additive, destructive, RollbackMode, application,
  database_restore, RecoveryComponent, attachments, AttachmentMode, included, channel_eq, is_active,
}
use forgetbase.Updater.Semver.{Sign, below, same, above, compare_semver}
use forgetbase.Updater.Semver.Upgrades.{supports_upgrade_from}
use forgetbase.Updater.Env.{
  Env, Probe, Sys, Run, pure, throw, lift, gets, ask, consult, read, ◌>>=◌,
}
use forgetbase.Updater.Execution.{restores, is_database_restore}

-- `check`: every check that it makes is a blocking one
pub record Check : Type 0 where
  pub id : String
  pub passed : Bool
  pub blocking : Bool

-- `UpdatePreflight`
pub record Preflight : Type 0 where
  pub checked_at : ℕ
  pub current_version : String
  pub target_version : String
  pub eligible : Bool
  pub rollback_mode : RollbackMode
  pub estimated_downtime_seconds : ℕ
  pub checks : List Check

abbrev pub check : String → Bool → Check
check id passed = record { id = id; passed = passed; blocking = true }

abbrev pub is_managed_mode : InstallationMode → Bool
is_managed_mode managed = true
is_managed_mode _ = false

abbrev pub is_hosted : InstallationMode → Bool
is_hosted hosted = true
is_hosted _ = false

abbrev pub is_above : Sign → Bool
is_above above = true
is_above _ = false

abbrev pub is_below : Sign → Bool
is_below below = true
is_below _ = false

abbrev pub is_application_only : Compatibility → Bool
is_application_only application_only = true
is_application_only _ = false

abbrev pub is_destructive : Compatibility → Bool
is_destructive destructive = true
is_destructive _ = false

abbrev pub is_application : RollbackMode → Bool
is_application application = true
is_application _ = false

abbrev pub is_included : AttachmentMode → Bool
is_included included = true
is_included _ = false

abbrev pub is_attachments : RecoveryComponent → Bool
is_attachments attachments = true
is_attachments _ = false

abbrev pub is_empty_list : List String → Bool
is_empty_list [] = true
is_empty_list (_ ∷ _) = false

abbrev pub or_text : String → Option String → String
or_text fallback none = fallback
or_text fallback (some s) = s

-- `enabled`, with the option of the same name
abbrev pub is_enabled : Bool → Identity → Bool
is_enabled option i = option && not (is_hosted i.installation_mode)

-- an active job that is not the current one
abbrev pub is_other_active : Option String → Job → Bool
is_other_active current j = not (opt_eq (some j.id) current) && is_active j.phase

module _ (locale_gt : List ℕ → List ℕ → Bool) (option : Bool) where
  -- the checks whose conditions compare no versions
  unfoldable pub plain_checks : Identity → Ledger → Option String → Manifest → Probe → List Check
  plain_checks i l current m p =
      check "migration-contract" (
        not (is_application_only m.migration.compatibility)
        || (is_empty_list m.migration.migration_ids
            && opt_eq (some m.migration.target_schema_version) i.database_schema_version))
      ∷ check "rollback-contract"
          (not (is_destructive m.migration.compatibility) || is_database_restore m.rollback_mode)
      ∷ check "application-rollback-compatibility"
          (not (is_application m.rollback_mode) || not (is_destructive m.migration.compatibility))
      ∷ check "managed-rollback-mode" (restores m.rollback_mode)
      ∷ check "no-active-job" (not (any (is_other_active current) l.jobs))
      ∷ check "system-health" p.healthy
      ∷ check "docker" p.docker_available
      ∷ check "compose" p.compose_available
      ∷ check "configuration" p.configuration_valid
      ∷ check "configuration-drift" (not p.configuration_drift)
      ∷ check "backup-destination" p.backup_writable
      ∷ check "disk-space" (leb p.required_bytes p.free_bytes)
      ∷ check "attachment-recovery" (
          any is_attachments m.recovery.components
          && is_included m.recovery.attachment_mode
          && p.attachment_snapshot_available)
      ∷ []

  -- all checks, with what the comparisons of versions say
  unfoldable pub all_checks :
      Identity → Ledger → Option String → Manifest → Probe → Sign → Bool → Sign → List Check
  unfolding plain_checks
  all_checks i l current m p newer supported updater =
      check "updates-enabled" (is_enabled option i)
      ∷ check "managed-install" (is_managed_mode i.installation_mode)
      ∷ check "newer-release" (is_above newer)
      ∷ check "release-channel" (channel_eq m.channel i.channel)
      ∷ check "upgrade-path" supported
      ∷ check "updater-version" (not (is_below updater))
      ∷ plain_checks i l current m p

  -- The list of checks; a version that does not parse throws.
  unfoldable pub checks : Identity → Ledger → Option String → Manifest → Probe → Result (List Check)
  unfolding all_checks compare_semver supports_upgrade_from
  checks i l current m p =
      bind_result (compare_semver locale_gt (codes m.version) (codes i.version)) λ newer.
        bind_result (supports_upgrade_from locale_gt (map codes m.upgrade_from) (codes i.version))
          λ supported.
            bind_result
              (compare_semver locale_gt (codes (or_text "0.0.0" i.updater_version))
                (codes m.min_updater_version))
              λ updater. ok (all_checks i l current m p newer supported updater)

  module _ {W : Type 0} (env : Env W) where
    -- the release of an update that is available
    abbrev pub offered : Option String → Option AvailableUpdate → Result Manifest
    offered version none = err "No update is currently available"
    offered version (some a) = elim a.release [
      | none ↦ err "No update is currently available"
      | some m ↦
          if not a.update_available
          then err "No update is currently available"
          else if is_none version || version_is version m.version
          then ok m
          else err (
              text "Requested release " (or_text "" version)
                (text " does not match available release " m.version ""))
    ]
      where
        version_is : Option String → String → Bool
        version_is none v = true
        version_is (some w) v = w == "" || w == v

    unfoldable pub require_available_release : Option String → Run W Manifest
    require_available_release version = do l ← read env; lift (offered version l.available_update)

    abbrev pub chosen_release : Option String → Option Manifest → Run W Manifest
    chosen_release version none = require_available_release version
    chosen_release version (some m) = pure m

    unfoldable pub preflight : Option String → Option String → Option Manifest → Run W Preflight
    unfolding checks require_available_release
    preflight version current approved = do
      l ← read env
      m ← chosen_release version approved
      p ← consult (env.probe m)
      i ← gets (λ s. s.identity)
      cs ← lift (checks i l current m p)
      now ← ask env.now
      pure (record {
        checked_at = now;
        current_version = i.version;
        target_version = m.version;
        eligible = all (λ (c : Check). not c.blocking || c.passed) cs;
        rollback_mode = m.rollback_mode;
        estimated_downtime_seconds = m.estimated_downtime_seconds;
        checks = cs;
      })
