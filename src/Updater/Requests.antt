-- ===== src/Updater/Requests.antt =====
-- packages/updater/src/manager.ts: what a restart of the updater makes of the jobs it finds, and how
-- requests end before they are run.
pub mod Settling
mod Tests
use forgetbase.Prelude.{
  text, ℕ, String, Bool, true, false, not, ◌&&◌, ◌||◌, Option, none, some, List, [], ◌∷◌, Result,
  ok, err, if◌then◌else◌, filter, find, length, leb, nat_eq, any, is_some, is_none, ◌==◌,
}
use forgetbase.Updater.Types.{
  Phase, awaiting_approval, expired, queued, scheduled, preflight, backing_up, staging, maintenance,
  migrating, starting, verifying, completed, failed, rolling_back, rolled_back, cancelled,
  needs_attention, Approval, Job, Ledger, is_active, is_waiting,
}
use forgetbase.Updater.Schema.{parse_job}
use forgetbase.Updater.Env.{
  Env, Sys, Run, pure, throw, lift, gets, catch, ask, read, write, mutate, ◌>>=◌, ◌>>◌,
}
use forgetbase.Updater.Jobs.{try_update_job, update_job}
use forgetbase.Updater.Approval.{validate, consumed, takes_decision, reject_when}

abbrev pub phase_name : Phase → String
phase_name awaiting_approval = "awaiting-approval"
phase_name Phase.denied = "denied"
phase_name expired = "expired"
phase_name queued = "queued"
phase_name scheduled = "scheduled"
phase_name preflight = "preflight"
phase_name backing_up = "backing-up"
phase_name staging = "staging"
phase_name maintenance = "maintenance"
phase_name migrating = "migrating"
phase_name starting = "starting"
phase_name verifying = "verifying"
phase_name completed = "completed"
phase_name failed = "failed"
phase_name rolling_back = "rolling-back"
phase_name rolled_back = "rolled-back"
phase_name cancelled = "cancelled"
phase_name needs_attention = "needs-attention"

-- `!["queued", "scheduled", "preflight", "staging"].includes(phase)`
abbrev pub may_have_mutated : Phase → Bool
may_have_mutated queued = false
may_have_mutated scheduled = false
may_have_mutated preflight = false
may_have_mutated staging = false
may_have_mutated _ = true

abbrev pub active : List Job → List Job
active = filter (λ j. is_active j.phase)

abbrev pub is_consumed : Option Approval → Bool
is_consumed none = false
is_consumed (some a) = is_some a.consumed_at

-- `pending`: the request has not begun
unfoldable pub pending : Job → Bool
pending j = is_waiting j.phase && is_none j.started_at && not (is_consumed j.approval)

-- a request that a host decision may still start
abbrev pub awaits_decision : Bool → Job → Bool
awaits_decision alone j =
    alone
    && takes_decision j.phase
    && is_some j.approval
    && is_none j.started_at
    && not j.writes_reopened

-- the texts of `recovery`
abbrev pub recovery_text : Option String → String
recovery_text none =
    "Inspect the installation, maintenance state, and host recovery files before submitting a new operation."
recovery_text (some id) =
    if id == ""
    then "Inspect the installation, maintenance state, and host recovery files before submitting a new operation."
    else text "Inspect the installation and recovery point " id
        "; explicitly confirm any manual restore and possible data loss."

module _ {W : Type 0} (env : Env W) where
  unfoldable pub quarantine : Job → Run W Job
  quarantine j = do
    now ← ask env.now
    lift (
        parse_job env.formats (record j {
          phase = needs_attention;
          completed_at = some now;
          writes_reopened = j.writes_reopened || may_have_mutated j.phase;
          error_code = some "updater_interrupted";
          message =
              text "Updater interrupted during " (phase_name j.phase)
                (text "; no operation was replayed. " (recovery_text j.recovery_point_id) "");
        }))

  -- `job.approval.consumedAt || await this.authority.consumed(job)`
  unfoldable pub was_consumed : Job → Approval → Run W Bool
  unfolding consumed
  was_consumed j a = if is_some a.consumed_at then pure true else consumed env j

  unfoldable pub interrupted : Job → Run W Job
  interrupted j = do
    now ← ask env.now
    pure (record j {
      phase = needs_attention;
      completed_at = some now;
      error_code = some "approval_consumption_interrupted";
      message = "Host approval was consumed before interruption; execution was not replayed";
    })

  unfoldable pub expire : Job → Run W Job
  expire j = do
    now ← ask env.now
    pure (record j {
      phase = expired;
      completed_at = some now;
      message = "Host approval request expired before execution";
    })

  unfoldable pub keep_or_expire : Job → Approval → Run W Job
  unfolding expire
  keep_or_expire j a = do
    now ← ask env.now
    if leb a.descriptor.expires_at now then expire j else pure j

  -- the `try` block for a request that awaits its decision
  unfoldable pub resettle : Job → Run W Job
  unfolding validate was_consumed interrupted keep_or_expire
  resettle j = do
    a ← validate env j
    used ← was_consumed j a
    if used then interrupted j else keep_or_expire j a

  unfoldable pub reconcile_job : Bool → Job → Run W Job
  unfolding resettle quarantine
  reconcile_job alone j =
      if not (is_active j.phase)
      then pure j
      else if awaits_decision alone j
      then catch (resettle j) (λ _. quarantine j)
      else quarantine j

  -- `Promise.all`, one job after the other
  unfoldable pub reconcile_all : Bool → List Job → Run W (List Job)
  unfolding reconcile_job
  reconcile_all alone [] = pure []
  reconcile_all alone (j ∷ js) = do
    j' ← reconcile_job alone j
    rest ← reconcile_all alone js
    pure (j' ∷ rest)

  -- `reconcileInterruptedJobs`; `running` counts the operations of this process.
  unfoldable pub reconcile_interrupted_jobs : ℕ → Run W (Unit {0})
  unfolding reconcile_all reject_when
  reconcile_interrupted_jobs running = do
    reject_when (not (nat_eq running 0)) "Cannot reconcile while an updater operation is running"
    l ← read env
    js ← reconcile_all (nat_eq (length (active l.jobs)) 1) l.jobs
    write env (record l { jobs = js })

  -- `cancel`; the clock is read first.
  unfoldable pub cancel : String → Run W (Unit {0})
  cancel id = do
    now ← ask env.now
    try_update_job env id λ j.
        if not (is_waiting j.phase) || is_consumed j.approval
        then err "Only pending unconsumed jobs can be cancelled safely"
        else ok (record j {
          phase = cancelled;
          completed_at = some now;
          message = "Update cancelled before execution";
        })

  -- `finishPending`
  unfoldable pub finish_pending : String → Phase → String → String → Run W (Unit {0})
  unfolding pending
  finish_pending id phase error_code message = do
    now ← ask env.now
    update_job env id λ j.
        if pending j
        then record j {
          phase = phase;
          completed_at = some now;
          error_code = some error_code;
          message = message;
        }
        else j
