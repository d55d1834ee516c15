-- ===== src/Updater/Execution/Frames.antt =====
-- Reading and writing the ledger, and asking the services, leave the frame of a run as it is.
use forgetbase.Prelude.{ℕ, String, Result}
use forgetbase.Updater.Types.{Phase, Job, Ledger, Identity}
use forgetbase.Updater.Env.{
  Env, Sys, Frame, ask, consult, set_identity, read, replace, write, mutate,
}
use forgetbase.Updater.Env.Triples.{Keeps, keeps_rules}
use forgetbase.Updater.Jobs.{try_update_job, update_job, set_phase, complete_job, fail_job}
use forgetbase.Updater.Execution.{refresh, attend}

module _ {W : Type 0} where
  abbrev pub OnFrame : (Frame → Type 0) → Sys W → Type 0
  OnFrame F s = F s.frame

module _ {W : Type 0} (F : Frame → Type 0) where
  Keeps-ask : {A : Type 0} (f : W → A × W) → Keeps (OnFrame F) (ask f)
  unfolding ask
  Keeps-ask f = record { kept = λ s g. g }

  Keeps-consult : {A : Type 0} (f : W → Result A × W) → Keeps (OnFrame F) (consult f)
  unfolding consult
  Keeps-consult f = record { kept = λ s g. g }

  Keeps-set_identity : (i : Identity) → Keeps {W = W} (OnFrame F) (set_identity i)
  unfolding set_identity
  Keeps-set_identity i = record { kept = λ s g. g }

-- Asking the services changes neither the frame nor the ledger.
module _ {W : Type 0} (G : Frame → Ledger → Type 0) where
  abbrev pub OnView : Sys W → Type 0
  OnView s = G s.frame s.ledger

  pub Keeps-ask_view : {A : Type 0} (f : W → A × W) → Keeps OnView (ask f)
  unfolding ask
  Keeps-ask_view f = record { kept = λ s g. g }

  Keeps-consult_view : {A : Type 0} (f : W → Result A × W) → Keeps OnView (consult f)
  unfolding consult
  Keeps-consult_view f = record { kept = λ s g. g }

  Keeps-set_identity_view : (i : Identity) → Keeps OnView (set_identity i)
  unfolding set_identity
  Keeps-set_identity_view i = record { kept = λ s g. g }

  pub Keeps-refresh_view : (env : Env W) (retention : ℕ) → Keeps OnView (refresh env retention)
  unfolding refresh
  Keeps-refresh_view env retention =
      search (keeps_rules, Keeps-consult_view, Keeps-set_identity_view)

module _ {W : Type 0} (F : Frame → Type 0) (env : Env W) where
  Keeps-read : Keeps (OnFrame F) (read env)
  unfolding read
  Keeps-read = record { kept = λ s g. g }

  Keeps-replace : (l : Ledger) → Keeps (OnFrame F) (replace env l)
  unfolding replace
  Keeps-replace l = record { kept = λ s g. g }

  Keeps-write : (l : Ledger) → Keeps (OnFrame F) (write env l)
  unfolding write
  Keeps-write l = search (keeps_rules, Keeps-replace)

  pub Keeps-mutate : (update : Ledger → Result Ledger) → Keeps (OnFrame F) (mutate env update)
  unfolding mutate
  Keeps-mutate update = search (keeps_rules, Keeps-read, Keeps-write)

  Keeps-try_update_job :
      (id : String) (update : Job → Result Job) → Keeps (OnFrame F) (try_update_job env id update)
  unfolding try_update_job
  Keeps-try_update_job id update = search (keeps_rules, Keeps-mutate)

  pub Keeps-update_job :
      (id : String) (update : Job → Job) → Keeps (OnFrame F) (update_job env id update)
  unfolding update_job
  Keeps-update_job id update = Keeps-try_update_job id _

  pub Keeps-set_phase :
      (id : String) (phase : Phase) (progress : ℕ) (message : String)
      → Keeps (OnFrame F) (set_phase env id phase progress message)
  unfolding set_phase
  Keeps-set_phase id phase progress message = Keeps-try_update_job id _

  pub Keeps-complete_job :
      (id : String) (update : Job → Job) → Keeps (OnFrame F) (complete_job env id update)
  unfolding complete_job
  Keeps-complete_job id update = search (keeps_rules, Keeps-ask, Keeps-try_update_job)

  pub Keeps-fail_job :
      (id error_code message : String) → Keeps (OnFrame F) (fail_job env id error_code message)
  unfolding fail_job
  Keeps-fail_job id error_code message = search (keeps_rules, Keeps-ask, Keeps-try_update_job)

  pub Keeps-refresh : (retention : ℕ) → Keeps (OnFrame F) (refresh env retention)
  unfolding refresh
  Keeps-refresh retention = search (keeps_rules, Keeps-consult, Keeps-set_identity)

  pub Keeps-attend :
      (retention : ℕ) (id error_code message : String)
      → Keeps (OnFrame F) (attend env retention id error_code message)
  unfolding complete_job
  Keeps-attend retention id error_code message =
      search (keeps_rules, Keeps-ask, Keeps-try_update_job)
