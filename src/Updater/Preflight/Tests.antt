-- ===== src/Updater/Preflight/Tests.antt =====
-- A preflight that passes, and an instance of the theorem about preflights.
use forgetbase.Prelude.{ℕ, Bool, true, false, ◌≡◌, refl, some, ok, List, [], ◌∷◌}
use forgetbase.Updater.Types.{Manifest, Identity, attachments, included, database}
use forgetbase.Updater.Semver.{above, compare_semver}
use forgetbase.Updater.Semver.Upgrades.{supports_upgrade_from}
use forgetbase.Updater.Env.{Probe}
use forgetbase.Updater.Execution.Tests.{test_identity, test_release, test_sys}
use forgetbase.Updater.Preflight.{Check, checks, all_checks, plain_checks}
use forgetbase.Updater.Preflight.Eligible.{IsReady, is_eligible, checks-IsReady}

-- texts by their lengths; no pre-release is compared here
abbrev longer : List ℕ → List ℕ → Bool
longer [] r = false
longer (c ∷ cs) [] = true
longer (c ∷ cs) (d ∷ ds) = longer cs ds

abbrev good_release : Manifest
good_release = record test_release {
  recovery = record { components = database ∷ attachments ∷ []; attachment_mode = included };
}

abbrev good_probe : Probe
good_probe = record {
  healthy = true;
  docker_available = true;
  compose_available = true;
  configuration_valid = true;
  configuration_drift = false;
  backup_writable = true;
  free_bytes = 2000;
  required_bytes = 1000;
  attachment_snapshot_available = true;
}

abbrev installed : Identity
installed = record test_identity { updater_version = some "1.2.0" }

abbrev good_checks : List Check
good_checks =
    all_checks longer true installed test_sys.ledger (some "j1") good_release good_probe above true
      above

checks_pass : is_eligible good_checks ≡ true
unfolding all_checks plain_checks
checks_pass = refl

checks_run :
    checks longer true installed test_sys.ledger (some "j1") good_release good_probe
    ≡ ok good_checks
unfolding checks compare_semver supports_upgrade_from
checks_run = refl

checks-IsReady_example :
    IsReady longer installed test_sys.ledger (some "j1") good_release good_probe
checks-IsReady_example =
    checks-IsReady longer true installed test_sys.ledger (some "j1") good_release good_probe
      good_checks checks_run checks_pass
