-- ===== src/Updater/Requests/Tests.antt =====
-- A restart that finds an interrupted migration, and an instance of the theorem about restarts.
use forgetbase.Prelude.{ℕ, true, ◌≡◌, refl, ok, err, [], ◌∷◌, map}
use forgetbase.Updater.Types.{Job, migrating, needs_attention, cancelled}
use forgetbase.Updater.Schema.{parse_job, job_ok, parse_state, point_ok}
use forgetbase.Updater.Store.{bounded, prune}
use forgetbase.Updater.Env.{Sys, ◌>>=◌, lift, ask, read, write, replace, pure, throw, mutate, gets}
use forgetbase.Updater.Jobs.{try_update_job, map_job}
use forgetbase.Updater.Approval.{reject_when}
use forgetbase.Updater.Execution.Tests.{test_env, test_job, test_sys}
use forgetbase.Updater.Requests.{
  reconcile_interrupted_jobs, reconcile_all, reconcile_job, quarantine, cancel,
}
use forgetbase.Updater.Requests.Settling.{IsSettled, reconcile-IsSettled}

abbrev interrupted_sys : Sys ℕ
interrupted_sys = record test_sys {
  ledger = record test_sys.ledger { jobs = record test_job { phase = migrating } ∷ [] };
}

reconcile-returns : (reconcile_interrupted_jobs (test_env true) 0 interrupted_sys).0 ≡ ok tt
unfolding reconcile_interrupted_jobs reconcile_all reconcile_job quarantine reject_when read lift
    ask write replace bounded prune parse_state parse_job job_ok point_ok pure throw ◌>>=◌
reconcile-returns = refl

-- The migration is not run again.
reconcile-quarantines :
    map
      (λ (j : Job). j.phase)
      (reconcile_interrupted_jobs (test_env true) 0 interrupted_sys).1.ledger.jobs
    ≡ needs_attention ∷ []
unfolding reconcile_interrupted_jobs reconcile_all reconcile_job quarantine reject_when read lift
    ask write replace bounded prune parse_state parse_job job_ok point_ok pure throw ◌>>=◌
reconcile-quarantines = refl

reconcile-IsSettled_example :
    IsSettled (reconcile_interrupted_jobs (test_env true) 0 interrupted_sys).1.ledger.jobs
reconcile-IsSettled_example =
    reconcile-IsSettled (test_env true) 0 interrupted_sys reconcile-returns

cancel-cancels :
    map (λ (j : Job). j.phase) (cancel (test_env true) "j1" test_sys).1.ledger.jobs ≡ cancelled ∷ []
unfolding cancel try_update_job map_job mutate gets read lift ask write replace bounded prune
    parse_state parse_job job_ok point_ok pure throw ◌>>=◌
cancel-cancels = refl

cancel-refuses :
    (cancel (test_env true) "j1" interrupted_sys).0
    ≡ err "Only pending unconsumed jobs can be cancelled safely"
unfolding cancel try_update_job map_job mutate gets read lift ask write replace bounded prune
    parse_state parse_job job_ok point_ok pure throw ◌>>=◌
cancel-refuses = refl
