-- ===== src/Updater/Preflight/Eligible.antt =====
-- What a release that is found eligible fulfils.
use forgetbase.Prelude.{
  ℕ, ◌≤◌, String, Bool, true, false, not, ◌&&◌, ◌||◌, ◌≡◌, refl, ap, ◌∙◌, Option, none, some, List,
  [], ◌∷◌, Result, ok, err, All, all, any, map, codes, arith, leb, opt_eq, eq_iff,
}
use forgetbase.Prelude.{◌>>=◌ as bind_result}
use forgetbase.Updater.Types.{
  Manifest, Identity, Job, Ledger, Channel, InstallationMode, managed, Compatibility, destructive,
  RollbackMode, database_restore, channel_eq, is_active,
}
use forgetbase.Updater.Semver.{Sign, above, compare_semver}
use forgetbase.Updater.Semver.Upgrades.{supports_upgrade_from}
use forgetbase.Updater.Env.{Probe}
use forgetbase.Updater.Execution.{restores, is_database_restore}
use forgetbase.Updater.Preflight.{
  Check, plain_checks, all_checks, checks, is_other_active, is_above, is_managed_mode,
  is_destructive, is_attachments, is_included, or_text,
}

-- A release `m` may be installed over `i`, by the ledger and what the executor found out.
pub record IsReady (locale_gt : List ℕ → List ℕ → Bool) (i : Identity) (l : Ledger)
    (current : Option String) (m : Manifest) (p : Probe) : Type 0 where
  pub managed_install : i.installation_mode ≡ managed
  pub newer : compare_semver locale_gt (codes m.version) (codes i.version) ≡ ok above
  pub same_channel : m.channel ≡ i.channel
  pub supported :
      supports_upgrade_from locale_gt (map codes m.upgrade_from) (codes i.version) ≡ ok true
  pub recoverable : m.migration.compatibility ≡ destructive → m.rollback_mode ≡ database_restore
  pub restorable : restores m.rollback_mode ≡ true
  pub alone : All (λ j. is_active j.phase ≡ true → some j.id ≡ current) l.jobs
  pub healthy : p.healthy ≡ true
  pub docker : p.docker_available ≡ true
  pub compose : p.compose_available ≡ true
  pub configuration : p.configuration_valid ≡ true
  pub undrifted : p.configuration_drift ≡ false
  pub backup : p.backup_writable ≡ true
  pub space : p.required_bytes ≤ p.free_bytes
  pub snapshots : p.attachment_snapshot_available ≡ true

channel_eq-eq : (a b : Channel) → channel_eq a b ≡ true → a ≡ b
channel_eq-eq a b e = ground arith

is_managed_mode-eq : (a : InstallationMode) → is_managed_mode a ≡ true → a ≡ managed
is_managed_mode-eq a e = ground arith

is_above-eq : (a : Sign) → is_above a ≡ true → a ≡ above
is_above-eq a e = ground arith

is_database_restore-eq : (a : RollbackMode) → is_database_restore a ≡ true → a ≡ database_restore
is_database_restore-eq a e = ground arith

opt_eq-eq : (a : String) (b : Option String) → opt_eq (some a) b ≡ true → some a ≡ b
opt_eq-eq a none e = cc
opt_eq-eq a (some b) e = ap some ((eq_iff a b).0 e)

none_other :
    (current : Option String) (js : List Job)
    → any (is_other_active current) js ≡ false
    → All (λ j. is_active j.phase ≡ true → some j.id ≡ current) js
none_other current [] e = tt
none_other current (j ∷ js) e =
    (λ a. opt_eq-eq j.id current (ground arith), none_other current js (ground arith))

not-false : (b : Bool) → not b ≡ true → b ≡ false
not-false true e = cc
not-false false e = refl

leb_le : (a b : ℕ) → leb a b ≡ true → a ≤ b
leb_le a b e = ground arith

both : (a b : Bool) → (a && b) ≡ true → (a ≡ true) × (b ≡ true)
both true b e = (refl, e)
both false b e = cc

abbrev pub is_eligible : List Check → Bool
is_eligible = all (λ c. not c.blocking || c.passed)

ok_injective : {A : Type 0} {a b : A} → ok a ≡ ok b → a ≡ b
ok_injective e = cc

third : (a b c : Bool) → (a && b && c) ≡ true → c ≡ true
third a b c e = ground arith

must :
    (c : Compatibility) {b : Bool}
    → c ≡ destructive
    → (not (is_destructive c) || b) ≡ true
    → b ≡ true
must c eq e = ground arith

module _ (locale_gt : List ℕ → List ℕ → Bool) (option : Bool) where
  all_checks-IsReady :
      (i : Identity) (l : Ledger) (current : Option String) (m : Manifest) (p : Probe)
      (newer : Sign) (supported : Bool) (updater : Sign)
      → compare_semver locale_gt (codes m.version) (codes i.version) ≡ ok newer
      → supports_upgrade_from locale_gt (map codes m.upgrade_from) (codes i.version) ≡ ok supported
      → is_eligible (all_checks locale_gt option i l current m p newer supported updater) ≡ true
      → IsReady locale_gt i l current m p
  unfolding all_checks plain_checks
  all_checks-IsReady i l current m p newer supported updater first second good =
      let (enabled, g0) = both _ _ good in
      let (mode, g1) = both _ _ g0 in
      let (sign, g2) = both _ _ g1 in
      let (channel, g3) = both _ _ g2 in
      let (path, g4) = both _ _ g3 in
      let (version, g5) = both _ _ g4 in
      let (contract, g6) = both _ _ g5 in
      let (rollback, g7) = both _ _ g6 in
      let (additive, g8) = both _ _ g7 in
      let (restorable, g9) = both _ _ g8 in
      let (alone, g10) = both _ _ g9 in
      let (healthy, g11) = both _ _ g10 in
      let (docker, g12) = both _ _ g11 in
      let (compose, g13) = both _ _ g12 in
      let (valid, g14) = both _ _ g13 in
      let (drift, g15) = both _ _ g14 in
      let (backup, g16) = both _ _ g15 in
      let (space, g17) = both _ _ g16 in
      let (attached, _) = both _ true g17 in
      record {
        managed_install = is_managed_mode-eq i.installation_mode mode;
        newer = first ∙ ap ok (is_above-eq newer sign);
        same_channel = channel_eq-eq m.channel i.channel channel;
        supported = second ∙ ap ok path;
        recoverable =
            λ e. is_database_restore-eq m.rollback_mode (must m.migration.compatibility e rollback);
        restorable = restorable;
        alone = none_other current l.jobs (not-false _ alone);
        healthy = healthy;
        docker = docker;
        compose = compose;
        configuration = valid;
        undrifted = not-false _ drift;
        backup = backup;
        space = leb_le p.required_bytes p.free_bytes space;
        snapshots =
            third (any is_attachments m.recovery.components)
              (is_included m.recovery.attachment_mode) p.attachment_snapshot_available attached;
      }

  -- If every blocking check of a release passes, the installation is a managed one, the release is
  -- newer, of the same channel, and supports an upgrade from the installed version; a destructive
  -- migration declares a restoration of the database; no other job is active; and the executor found
  -- the installation healthy and undrifted, with a place for backups, snapshots of attachments and
  -- enough free space.
  pub checks-IsReady :
      (i : Identity) (l : Ledger) (current : Option String) (m : Manifest) (p : Probe)
      (cs : List Check)
      → checks locale_gt option i l current m p ≡ ok cs
      → is_eligible cs ≡ true
      → IsReady locale_gt i l current m p
  unfolding checks
  checks-IsReady i l current m p cs e eligible =
      by_results (compare_semver locale_gt (codes m.version) (codes i.version))
        (supports_upgrade_from locale_gt (map codes m.upgrade_from) (codes i.version))
        (compare_semver locale_gt (codes (or_text "0.0.0" i.updater_version))
          (codes m.min_updater_version))
        refl refl e
    where
      by_results :
          (x : Result Sign) (y : Result Bool) (z : Result Sign)
          → compare_semver locale_gt (codes m.version) (codes i.version) ≡ x
          → supports_upgrade_from locale_gt (map codes m.upgrade_from) (codes i.version) ≡ y
          → bind_result x (λ newer. bind_result y (λ supported.
            bind_result z (λ updater.
              ok (all_checks locale_gt option i l current m p newer supported updater))))
            ≡ ok cs
          → IsReady locale_gt i l current m p
      by_results (ok newer) (ok supported) (ok updater) first second all_of =
          all_checks-IsReady i l current m p newer supported updater first second (
            let same : all_checks locale_gt option i l current m p newer supported updater ≡ cs =
              ok_injective all_of in
            ap is_eligible same ∙ eligible)
      by_results (err x) y z first second all_of = cc
      by_results (ok newer) (err x) z first second all_of = cc
      by_results (ok newer) (ok supported) (err x) first second all_of = cc
