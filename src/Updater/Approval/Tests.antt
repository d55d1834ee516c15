-- ===== src/Updater/Approval/Tests.antt =====
-- An approval that is decided and consumed, and instances of the theorems about approvals.
use forgetbase.Prelude.{ℕ, true, ◌≡◌, ◌≢◌, refl, none, some, ok, []}
use forgetbase.Updater.Types.{
  update, approved, Descriptor, Job, HostDecision, Consumption, awaiting_approval,
}
use forgetbase.Updater.Env.{Sys, ◌>>=◌, catch, gets, consult, ask, pure, throw}
use forgetbase.Updater.Execution.Tests.{test_identity, test_release, test_env, test_job, test_sys}
use forgetbase.Updater.Approval.{
  validate, decide, consume, consumed, read_decision, decision_file, checked, publish_decision,
  publish_consumed, reject_when, check_path, access, installation_id, is_installation_id,
  is_unchanged, is_bound, is_decision_on, find_file,
}
use forgetbase.Updater.Approval.Consuming.{IsAuthorized, consume-IsAuthorized}
use forgetbase.Updater.Approval.SingleUse.{here, consumes, files_stand, consume_once}

abbrev test_descriptor : Descriptor
test_descriptor = record {
  installation_id = "00000000-0000-4000-8000-000000000000";
  job_id = "j1";
  kind = update;
  requested_at = 0;
  scheduled_for = none;
  expires_at = 86400000;
  source_identity = test_identity;
  target_version = "1.1.0";
  automatic_rollback = true;
  manifest_key_id = some "k1";
  manifest_digest = some "1.1.0";
  release = some test_release;
  recovery_point = none;
  recovery_receipt_digest = none;
  confirm_data_loss_after = none;
}

abbrev requested : Job
requested = record test_job {
  phase = awaiting_approval;
  manifest_key_id = some "k1";
  approval = some (record {
    request_digest = "j1";
    descriptor = test_descriptor;
    decision = none;
    decided_at = none;
    consumed_at = none;
  });
}

abbrev host_sys : Sys ℕ
host_sys = record test_sys {
  vault = record {
    installation_id = some "00000000-0000-4000-8000-000000000000";
    decisions = [];
    consumed = [];
  };
}

abbrev decided_sys : Sys ℕ
decided_sys = (decide (test_env true) requested "j1" approved host_sys).1

abbrev test_decision : HostDecision
test_decision = record {
  installation_id = "00000000-0000-4000-8000-000000000000";
  job_id = "j1";
  request_digest = "j1";
  expires_at = 86400000;
  decision = approved;
  decided_at = some 6;
}

decide-approves : (decide (test_env true) requested "j1" approved host_sys).0 ≡ ok test_decision
unfolding decide consume validate consumed read_decision decision_file checked publish_decision
    publish_consumed reject_when check_path access installation_id is_installation_id is_unchanged
    is_bound is_decision_on ◌>>=◌ catch gets consult ask pure throw
decide-approves = refl

consume-approved : (consume (test_env true) requested decided_sys).0 ≡ ok test_decision
unfolding decide consume validate consumed read_decision decision_file checked publish_decision
    publish_consumed reject_when check_path access installation_id is_installation_id is_unchanged
    is_bound is_decision_on ◌>>=◌ catch gets consult ask pure throw
consume-approved = refl

consume-IsAuthorized_example :
    IsAuthorized
      (test_env true)
      requested
      decided_sys.vault
      (consume (test_env true) requested decided_sys).1.vault
      test_decision
consume-IsAuthorized_example =
    consume-IsAuthorized (test_env true) requested decided_sys test_decision consume-approved

consume_once_example :
    (consume (test_env true) requested (consume (test_env true) requested decided_sys).1).0
    ≢ ok test_decision
consume_once_example =
    consume_once (test_env true) requested requested decided_sys
      (consume (test_env true) requested decided_sys).1 test_decision test_decision consume-approved
      here refl

abbrev test_consumption : Consumption
test_consumption = record { decided = test_decision; consumed_at = some 7 }

files_stand_example :
    (find_file "j1" decided_sys.vault.decisions ≡ some test_decision
      → find_file "j1" (consume (test_env true) requested decided_sys).1.vault.decisions
        ≡ some test_decision)
    × (find_file "j1" decided_sys.vault.consumed ≡ some test_consumption
        → find_file "j1" (consume (test_env true) requested decided_sys).1.vault.consumed
          ≡ some test_consumption)
files_stand_example =
    files_stand (test_env true) "j1" test_decision test_consumption (consumes here requested)
