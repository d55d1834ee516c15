-- ===== src/Updater/Execution/Tests.antt =====
-- Runs of updates with a concrete executor, and instances of the theorems about them.
use forgetbase.Prelude.{
  ℕ, ◌+◌, ◌*◌, ◌++◌, take, String, Bool, true, false, ◌≡◌, ◌≤◌, refl, none, List, [], ◌∷◌, length,
  Result, ok, err, map, All, ◌⊎◌,
}
use forgetbase.Updater.Types.{
  Phase, queued, completed, rolled_back, stable, managed, additive, application, not_configured,
  low, update, Manifest, Identity, RecoveryPoint, Job,
}
use forgetbase.Updater.Store.{empty_update_state, bounded, prune}
use forgetbase.Updater.Env.{
  Env, fine, Sys, Call, ◌>>=◌, modify_frame, catch, gets, mutate, read, write, replace, lift, pure,
  throw, call, consult, ask, set_identity,
}
use forgetbase.Updater.Jobs.{
  classify_error, set_phase, update_job, try_update_job, complete_job, fail_job, map_job,
}
use forgetbase.Updater.Schema.{parse_state, parse_point, parse_job, job_ok, point_ok}
use forgetbase.Updater.Execution.{
  execute_update, fresh_frame, retain, update_steps, handle_failure, roll_back, back_up,
  restore_recovery_point, refresh, prune_recovery_points, delete_points,
}
use forgetbase.Updater.Execution.Shape.{Shape, tried, steps}
use forgetbase.Updater.Execution.Order.{execute_update-Shape}
use forgetbase.Updater.Execution.Retention.{Merge, unprotected, retain_sound}

abbrev pub test_identity : Identity
test_identity = record {
  version = "1.0.0";
  source_revision = "r0";
  built_at = none;
  channel = stable;
  installation_mode = managed;
  database_schema_version = none;
  updater_version = none;
  is_managed = true;
}

abbrev pub test_release : Manifest
test_release = record {
  version = "1.1.0";
  channel = stable;
  published_at = 0;
  source_revision = "r1";
  min_updater_version = "1.0.0";
  upgrade_from = "*" ∷ [];
  risk = low;
  estimated_downtime_seconds = 60;
  requires_backup = true;
  rollback_mode = application;
  migration = record { compatibility = additive; target_schema_version = "2"; migration_ids = [] };
  recovery = record { components = []; attachment_mode = not_configured };
  images = [];
  notes = record {
    summary = "Fixes";
    highlights = [];
    security = [];
    breaking = [];
    configuration = [];
    known_issues = [];
  };
  revoked = false;
  revocation_reason = none;
}

abbrev pub test_point : String → Bool → RecoveryPoint
test_point id protected = record {
  id = id;
  created_at = 1;
  version = "1.0.0";
  source_revision = "r0";
  database_schema_version = none;
  image_references = [];
  backup_path = none;
  configuration_path = none;
  attachment_snapshot_id = none;
  verified = true;
  protected = protected;
  size_bytes = none;
}

abbrev answer : Bool → ℕ → Result (Unit {0}) × ℕ
answer true w = (ok tt, w)
answer false w = (err "Migration failed", w)

-- An executor whose migration succeeds or fails; the world is the clock.
abbrev pub test_env : Bool → Env ℕ
test_env migrates = record {
  formats = record { descriptor_ok = λ _. true; release_ok = λ _. true };
  digests = record {
    identity_digest = λ i. i.version;
    release_digest = λ m. m.version;
    point_digest = λ p. p.id;
    descriptor_digest = λ d. d.job_id;
    descriptor_bytes = λ d. 100;
  };
  ledger_bytes = λ l. 1000 * length l.jobs;
  now = λ w. (w, w + 1);
  io = λ w. (fine, w);
  recovery_receipt_digest = λ p w. (ok p.id, w);
  probe = λ m w. (err "No probe", w);
  create_recovery_point = λ i m w. (ok (test_point "p2" false), w);
  stage = λ m. answer true;
  enter_maintenance = answer true;
  resume_current = answer true;
  migrate = λ m. answer migrates;
  start_candidate = λ m. answer true;
  verify_candidate = λ m. answer true;
  reopen_writes = λ m. answer true;
  rollback_application = λ p. answer true;
  rollback_database = λ p. answer true;
  delete_recovery_point = λ p. answer true;
  refresh_identity = λ w. (ok test_identity, w);
}

abbrev pub test_job : Job
test_job = record {
  id = "j1";
  kind = update;
  phase = queued;
  requested_at = 0;
  scheduled_for = none;
  started_at = none;
  completed_at = none;
  current_version = "1.0.0";
  target_version = "1.1.0";
  manifest_key_id = none;
  recovery_point_id = none;
  progress_percent = 0;
  message = "Queued";
  error_code = none;
  automatic_rollback = true;
  writes_reopened = false;
  approval = none;
}

abbrev pub test_sys : Sys ℕ
test_sys = record {
  ledger = record empty_update_state {
    jobs = test_job ∷ [];
    recovery_points = test_point "p1" true ∷ test_point "p0" false ∷ [];
  };
  identity = test_identity;
  frame = fresh_frame;
  vault = record { installation_id = none; decisions = []; consumed = [] };
  world = 5;
}

abbrev phases : Sys ℕ → List Phase
phases s = map (λ (j : Job). j.phase) s.ledger.jobs

-- A run without failures goes through all steps, and then removes the old recovery point.
update-completes :
    (phases (execute_update (test_env true) 2 "j1" test_release test_sys).1 ≡ completed ∷ [])
    × ((execute_update (test_env true) 2 "j1" test_release test_sys).1.frame.calls
        ≡ tried (steps ++ Call.delete_recovery_point "p0" ∷ []) true)
unfolding execute_update update_steps handle_failure roll_back back_up restore_recovery_point
    refresh prune_recovery_points delete_points retain ◌>>=◌ modify_frame catch set_phase update_job
    try_update_job complete_job fail_job map_job gets mutate read write replace bounded parse_state
    prune lift pure throw call consult ask set_identity parse_point parse_job job_ok point_ok
    classify_error
update-completes = (refl, refl)

-- After a failed migration the release's kind of restoration is made.
update-rolls_back :
    (phases (execute_update (test_env false) 2 "j1" test_release test_sys).1 ≡ rolled_back ∷ [])
    × ((execute_update (test_env false) 2 "j1" test_release test_sys).1.frame.calls
        ≡ tried (take 4 steps) false
          ++ (Call.rollback_application (test_point "p2" false), true) ∷ [])
unfolding execute_update update_steps handle_failure roll_back back_up restore_recovery_point
    refresh prune_recovery_points delete_points retain ◌>>=◌ modify_frame catch set_phase update_job
    try_update_job complete_job fail_job map_job gets mutate read write replace bounded parse_state
    prune lift pure throw call consult ask set_identity parse_point parse_job job_ok point_ok
    classify_error
update-rolls_back = (refl, refl)

execute_update-Shape_example :
    Shape
      (test_env false)
      test_release
      (execute_update (test_env false) 2 "j1" test_release test_sys).1.frame.calls
      (execute_update (test_env false) 2 "j1" test_release test_sys).1.frame.recovery_point
execute_update-Shape_example = execute_update-Shape (test_env false) 2 "j1" test_release test_sys

abbrev test_points : List RecoveryPoint
test_points =
    test_point "p3" false ∷ test_point "p2" true ∷ test_point "p1" false ∷ test_point "p0" true ∷ []

retain_sound_example :
    Merge (retain 2 0 test_points).0 (retain 2 0 test_points).1 test_points
    × All (λ p. p.protected ≡ false) (retain 2 0 test_points).1
    × (((retain 2 0 test_points).1 ≡ []) ⊎ (2 ≤ length (retain 2 0 test_points).0))
    × (length (unprotected (retain 2 0 test_points).0) ≤ 2)
retain_sound_example = retain_sound 2 test_points
