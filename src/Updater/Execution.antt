-- ===== src/Updater/Execution.antt =====
-- packages/updater/src/manager.ts: `executeUpdate`, `executeRollback` and `pruneRecoveryPoints`. A run is
-- considered alone: what other requests write to the ledger meanwhile is not modelled.
pub mod Frames
pub mod Reopening
pub mod Shape
pub mod Handling
pub mod Order
pub mod Retention
pub mod Tests
use forgetbase.Prelude.{
  text, ℕ, suc, String, Bool, true, false, not, ◌&&◌, ◌||◌, Option, none, some, List, [], ◌∷◌, ◌++◌,
  Result, ok, err, if◌then◌else◌, is_some, is_none, length, ltb, max,
}
use forgetbase.Updater.Types.{
  Phase, staging, maintenance, backing_up, migrating, starting, verifying, completed, rolling_back,
  rolled_back, needs_attention, RollbackMode, application, database_restore, platform_managed,
  unavailable, Manifest, RecoveryPoint, Job, Ledger, Identity,
}
use forgetbase.Updater.Schema.{parse_point}
use forgetbase.Updater.Env.{
  Env, Sys, Run, Frame, Call, pure, throw, lift, gets, catch, ask, consult, call, modify_frame,
  set_identity, read, mutate, ◌>>=◌, ◌>>◌,
}
use forgetbase.Updater.Jobs.{
  classify_error, find_job, update_job, set_phase, complete_job, fail_job,
}

-- `["application", "database-restore"].includes(mode)`
abbrev pub restores : RollbackMode → Bool
restores application = true
restores database_restore = true
restores _ = false

abbrev pub is_database_restore : RollbackMode → Bool
is_database_restore database_restore = true
is_database_restore _ = false

-- what `pruneRecoveryPoints` keeps and removes: `kept` counts the points retained so far
unfoldable pub retain : ℕ → ℕ → List RecoveryPoint → List RecoveryPoint × List RecoveryPoint
retain most kept [] = ([], [])
retain most kept (p ∷ ps) =
    let keep = p.protected || ltb kept most in
    let (retained, removed) = retain most (if keep then suc kept else kept) ps in
    if keep then (p ∷ retained, removed) else (retained, p ∷ removed)

abbrev pub fresh_frame : Frame
fresh_frame = record { calls = []; recovery_point = none; maintenance_entered = false }

module _ {W : Type 0} (env : Env W) (retention : ℕ) where
  unfoldable pub delete_points : List RecoveryPoint → Run W (Unit {0})
  delete_points [] = pure tt
  delete_points (p ∷ ps) = do
    call (Call.delete_recovery_point p.id) (env.delete_recovery_point p)
    delete_points ps

  unfoldable pub prune_recovery_points : Run W (Unit {0})
  unfolding delete_points retain
  prune_recovery_points = do
    l ← read env
    let (retained, removed) = retain (max 1 retention) 0 l.recovery_points
    delete_points removed
    mutate env (λ current. ok (record current { recovery_points = retained }))

  -- `this.identity = …(await executor.refreshIdentity())`
  unfoldable pub refresh : Run W (Unit {0})
  refresh = do identity ← consult env.refresh_identity; set_identity identity

  -- `restoreRecoveryPoint`
  unfoldable pub restore_recovery_point : RecoveryPoint → Bool → Run W (Unit {0})
  restore_recovery_point point true =
      call (Call.rollback_database point) (env.rollback_database point)
  restore_recovery_point point false =
      call (Call.rollback_application point) (env.rollback_application point)

  -- the recovery point that the executor made, if it is a verified one
  abbrev pub verified_point : RecoveryPoint → Run W RecoveryPoint
  verified_point p = if p.verified then pure p else throw "Recovery point verification failed"

  unfoldable pub back_up : String → Manifest → Run W (Unit {0})
  back_up id manifest = do
    identity ← gets (λ s. s.identity)
    made ← call Call.create_recovery_point (env.create_recovery_point identity manifest)
    parsed ← lift (parse_point made)
    point ← verified_point parsed
    modify_frame (λ f. record f { recovery_point = some point })
    mutate env (λ l. ok (record l { recovery_points = point ∷ l.recovery_points }))
    update_job env id (λ j. record j { recovery_point_id = some point.id })

  -- the body of the `try` block of `executeUpdate`
  unfoldable pub update_steps : String → Manifest → Run W (Unit {0})
  unfolding back_up refresh prune_recovery_points
  update_steps id manifest = do
    set_phase env id staging 20 "Pulling digest-pinned release images"
    call Call.stage (env.stage manifest)
    set_phase env id maintenance 35 "Entering maintenance mode and stopping writers"
    modify_frame (λ f. record f { maintenance_entered = true })
    call Call.enter_maintenance env.enter_maintenance
    set_phase env id backing_up 50 "Creating and verifying database and attachment recovery point"
    back_up id manifest
    set_phase env id migrating 60 "Applying the verified migration set"
    call Call.migrate (env.migrate manifest)
    set_phase env id starting 75 "Starting candidate application services"
    call Call.start_candidate (env.start_candidate manifest)
    set_phase env id verifying 88 "Verifying candidate health and schema identity"
    call Call.verify_candidate (env.verify_candidate manifest)
    update_job env id (λ j. record j { writes_reopened = true })
    call Call.reopen_writes (env.reopen_writes manifest)
    modify_frame (λ f. record f { maintenance_entered = false })
    refresh
    prune_recovery_points
    complete_job env id λ j. record j {
      phase = completed;
      progress_percent = 100;
      message = text "Updated to " manifest.version "";
      writes_reopened = true;
    }

  abbrev pub attend : String → String → String → Run W (Unit {0})
  attend id error_code message =
      complete_job env id
        λ j. record j { phase = needs_attention; message = message; error_code = some error_code }

  -- the handler's case of a failure in maintenance without a recovery point
  unfoldable pub resume : String → String → Run W (Unit {0})
  resume id message =
      catch
        (do
          update_job env id (λ j. record j { writes_reopened = true })
          call Call.resume_current env.resume_current
          modify_frame (λ f. record f { maintenance_entered = false })
          fail_job env id (classify_error message) (text message "; current release resumed" ""))
        λ resume_error. attend id "current_release_resume_failed" (
          text "Update failed before recovery completed (" message
            (text "); current release also failed to resume (" resume_error ")"))

  -- the handler's case of an automatic rollback
  unfoldable pub roll_back : String → Manifest → String → RecoveryPoint → Run W (Unit {0})
  unfolding restore_recovery_point refresh
  roll_back id manifest message point =
      catch
        (do
          set_phase env id rolling_back 92 (text "Update failed; restoring " point.version "")
          update_job env id (λ j. record j { writes_reopened = true })
          restore_recovery_point point (is_database_restore manifest.rollback_mode)
          refresh
          complete_job env id λ j. record j {
            phase = rolled_back;
            progress_percent = 100;
            message = text "Update failed and automatically restored " point.version "";
            error_code = some (classify_error message);
          })
        λ rollback_error. attend id "automatic_rollback_failed" (
          text "Update failed (" message
            (text "); automatic rollback also failed (" rollback_error ")"))

  abbrev pub reopened : Option Job → Bool
  reopened none = false
  reopened (some j) = j.writes_reopened

  abbrev pub rolls_back : Option Job → Bool
  rolls_back none = false
  rolls_back (some j) = j.automatic_rollback && not j.writes_reopened

  -- the handler's last case: no rollback is made
  abbrev pub give_up : String → String → Option Job → Run W (Unit {0})
  give_up id message job =
      if reopened job
      then attend id (classify_error message) (
          text "Update failed after writes may have reopened (" message
            "); inspect the running release before an explicitly confirmed manual recovery")
      else fail_job env id (classify_error message) message

  abbrev pub handle_with_point :
      String → Manifest → String → Option Job → Option RecoveryPoint → Run W (Unit {0})
  handle_with_point id manifest message job none = give_up id message job
  handle_with_point id manifest message job (some point) =
      if rolls_back job
      then if restores manifest.rollback_mode
        then roll_back id manifest message point
        else attend id (classify_error message)
            (text "Update failed (" message "); this release does not permit automatic rollback")
      else give_up id message job

  -- the `catch` block of `executeUpdate`
  unfoldable pub handle_failure : String → Manifest → String → Run W (Unit {0})
  unfolding resume roll_back
  handle_failure id manifest message = do
    l ← read env
    f ← gets (λ s. s.frame)
    if f.maintenance_entered && is_none f.recovery_point
        then resume id message
        else handle_with_point id manifest message (find_job id l.jobs) f.recovery_point

  unfoldable pub execute_update : String → Manifest → Run W (Unit {0})
  unfolding update_steps handle_failure
  execute_update id manifest = do
    modify_frame (λ _. fresh_frame)
    catch (update_steps id manifest) (handle_failure id manifest)

  unfoldable pub execute_rollback : String → RecoveryPoint → Run W (Unit {0})
  unfolding restore_recovery_point refresh
  execute_rollback id point = do
    modify_frame (λ _. fresh_frame)
    catch
        (do
          set_phase env id maintenance 20 "Stopping writers before rollback"
          call Call.enter_maintenance env.enter_maintenance
          update_job env id λ j. record j {
            writes_reopened = true;
            phase = rolling_back;
            progress_percent = 55;
            message = text "Restoring recovery point " point.id "";
          }
          restore_recovery_point point (is_some point.backup_path)
          refresh
          complete_job env id λ j. record j {
            phase = rolled_back;
            progress_percent = 100;
            message = text "Restored " point.version "";
            writes_reopened = true;
          })
        λ e. attend id (classify_error e) (text "Rollback failed: " e "")
