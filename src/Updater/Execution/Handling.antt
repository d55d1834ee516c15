-- ===== src/Updater/Execution/Handling.antt =====
-- What the handler of a failed update calls, from each state in which a step may fail.
use forgetbase.Prelude.{
  ℕ, ◌≤◌, String, Bool, true, false, ◌≡◌, refl, ◌∙◌, ap, Option, none, some, List, [], ◌∷◌, ◌++◌,
  arith, All, Bool-cases, inl, inr, ◌⊎◌, if◌then◌else◌, is_none, ◌&&◌,
}
use forgetbase.Updater.Types.{Job, Ledger, RecoveryPoint, Manifest}
use forgetbase.Updater.Env.{Env, Sys, Run, Frame, Call, gets}
use forgetbase.Updater.Env.Triples.{
  Triple, Keeps, After, Triple-bind, Triple-weaken, Triple-Keeps, Triple-catch, Keeps-if, keep_then,
  call_then, call_last, read_same, modify_then,
}
use forgetbase.Updater.Jobs.{find_job}
use forgetbase.Updater.Execution.{
  restores, is_database_restore, restore_recovery_point, resume, roll_back, give_up, handle_failure,
  handle_with_point, rolls_back,
}
use forgetbase.Updater.Execution.Frames.{
  OnFrame, Keeps-update_job, Keeps-set_phase, Keeps-complete_job, Keeps-fail_job, Keeps-refresh,
  Keeps-attend,
}
use forgetbase.Updater.Execution.Reopening.{IsReopened}
use forgetbase.Updater.Execution.Shape.{
  Shape, stopped, halted, resumed, restored, Called, IsBacked, IsUsable,
}

module _ {W : Type 0} (env : Env W) (retention : ℕ) (id : String) (manifest : Manifest) where
  abbrev pub Shaped : Sys W → Type 0
  Shaped s = Shape env manifest s.frame.calls s.frame.recovery_point

  resume-Shaped :
      (message : String) (n : ℕ) (b : Bool)
      → 1 ≤ n
      → n ≤ 3
      → Triple (OnFrame (Called n b)) (resume env retention id message) (λ _. Shaped) Shaped
  unfolding resume
  resume-Shaped message n b lo hi =
      Triple-catch
        (keep_then (Keeps-update_job (Called n b) env id _) (λ s e. stopped n b hi e)
          λ _.
            call_then (λ _. Shaped) Call.resume_current _
              (λ s e r w. resumed n b r lo hi (ap (λ c. c ++ (Call.resume_current, r) ∷ []) e))
              (λ s h. h)
              λ _.
                modify_then _ (λ s h. h)
                  λ _.
                    Triple-Keeps (
                      Keeps-fail_job (λ f. Shape env manifest f.calls f.recovery_point) env id _ _))
        λ e.
          Triple-Keeps
            (Keeps-attend (λ f. Shape env manifest f.calls f.recovery_point) env retention id _ _)

  -- The run has kept the point `p`.
  abbrev Kept : ℕ → Bool → RecoveryPoint → Frame → Type 0
  Kept n b p f = Called n b f × (f.recovery_point ≡ some p)

  restore-Triple :
      (p : RecoveryPoint) (n : ℕ) (b : Bool)
      → 3 ≤ n
      → n ≤ 6
      → restores manifest.rollback_mode ≡ true
      → IsUsable env manifest p
      → Triple
          (OnFrame (Kept n b p))
          (restore_recovery_point env retention p (is_database_restore manifest.rollback_mode))
          (λ _. Shaped)
          Shaped
  restore-Triple p n b lo hi allowed u = by_mode (is_database_restore manifest.rollback_mode) refl
    where
      by_mode :
          (d : Bool)
          → is_database_restore manifest.rollback_mode ≡ d
          → Triple
              (OnFrame (Kept n b p))
              (restore_recovery_point env retention p d)
              (λ _. Shaped)
              Shaped
      by_mode true e =
          unfold restore_recovery_point in
          call_last (Call.rollback_database p) _ λ s h r w.
            restored n b r lo hi allowed p h.1 u
              (rw e (ap (λ c. c ++ (Call.rollback_database p, r) ∷ []) h.0))
      by_mode false e =
          unfold restore_recovery_point in
          call_last (Call.rollback_application p) _ λ s h r w.
            restored n b r lo hi allowed p h.1 u
              (rw e (ap (λ c. c ++ (Call.rollback_application p, r) ∷ []) h.0))

  Kept-Shaped :
      (n : ℕ) (b : Bool) (p : RecoveryPoint)
      → 3 ≤ n
      → n ≤ 6
      → IsUsable env manifest p
      → (s : Sys W) → OnFrame (Kept n b p) s
      → Shaped s
  Kept-Shaped n b p lo hi u s h = halted n b lo hi h.0 (p, h.1, u)

  roll_back-Shaped :
      (message : String) (p : RecoveryPoint) (n : ℕ) (b : Bool)
      → 3 ≤ n
      → n ≤ 6
      → restores manifest.rollback_mode ≡ true
      → IsUsable env manifest p
      → Triple
          (OnFrame (Kept n b p))
          (roll_back env retention id manifest message p)
          (λ _. Shaped)
          Shaped
  unfolding roll_back
  roll_back-Shaped message p n b lo hi allowed u =
      let stop = Kept-Shaped n b p lo hi u in
      Triple-catch
        (keep_then (Keeps-set_phase (Kept n b p) env id _ _ _) stop λ _.
          keep_then (Keeps-update_job (Kept n b p) env id _) stop λ _.
            Triple-bind (restore-Triple p n b lo hi allowed u) λ _.
              keep_then
                (Keeps-refresh (λ f. Shape env manifest f.calls f.recovery_point) env retention)
                (λ s h. h)
                λ _.
                  Triple-Keeps (
                    Keeps-complete_job (λ f. Shape env manifest f.calls f.recovery_point) env id _))
        λ e.
          Triple-Keeps
            (Keeps-attend (λ f. Shape env manifest f.calls f.recovery_point) env retention id _ _)

  give_up-Shaped :
      (message : String) (job : Option Job) → Keeps Shaped (give_up env retention id message job)
  give_up-Shaped message job =
      Keeps-if _ _ _
        (Keeps-attend (λ f. Shape env manifest f.calls f.recovery_point) env retention id _ _)
        (Keeps-fail_job (λ f. Shape env manifest f.calls f.recovery_point) env id _ _)

  -- Where the steps of an update may stop, with what the handler finds then.
  pub data Interrupted (f : Frame) (l : Ledger) : Type 0 where
    idle :
        (n : ℕ) (b : Bool)
        → n ≤ 1
        → Called n b f
        → f.maintenance_entered ≡ false
        → f.recovery_point ≡ none
        → Interrupted f l
    held :
        (n : ℕ) (b : Bool)
        → 1 ≤ n
        → n ≤ 3
        → Called n b f
        → f.maintenance_entered ≡ true
        → f.recovery_point ≡ none
        → Interrupted f l
    backed :
        (n : ℕ) (b : Bool)
        → 3 ≤ n
        → n ≤ 6
        → Called n b f
        → IsBacked env manifest f.recovery_point
        → Interrupted f l
    reopened :
        Shape env manifest f.calls f.recovery_point
        → IsBacked env manifest f.recovery_point
        → All (IsReopened id) l.jobs
        → Interrupted f l

  abbrev pub InterruptedAt : Sys W → Type 0
  InterruptedAt s = Interrupted s.frame s.ledger

  -- the handler's choice, on what it has read
  abbrev branch : String → Bool → Option RecoveryPoint → Option Job → Run W (Unit {0})
  branch message m p job =
      if m && is_none p
      then resume env retention id message
      else handle_with_point env retention id manifest message job p

  branch-some :
      (message : String) (m : Bool) (p : RecoveryPoint) (job : Option Job)
      → branch message m (some p) job
        ≡ handle_with_point env retention id manifest message job (some p)
  branch-some message true p job = refl
  branch-some message false p job = refl

  with_point-Shaped :
      (message : String) (p : RecoveryPoint) (job : Option Job) (n : ℕ) (b : Bool)
      → 3 ≤ n
      → n ≤ 6
      → IsUsable env manifest p
      → Triple
          (OnFrame (Kept n b p))
          (handle_with_point env retention id manifest message job (some p))
          (λ _. Shaped)
          Shaped
  with_point-Shaped message p job n b lo hi u =
      choose (Bool-cases (rolls_back env retention job))
        (Bool-cases (restores manifest.rollback_mode))
    where
      stop : (s : Sys W) → OnFrame (Kept n b p) s → Shaped s
      stop = Kept-Shaped n b p lo hi u

      kept :
          (m : Run W (Unit {0}))
          → Keeps Shaped m
          → Triple (OnFrame (Kept n b p)) m (λ _. Shaped) Shaped
      kept m k = Triple-weaken (Triple-Keeps k) stop (λ _ s h. h) (λ s h. h)

      choose :
          (rolls_back env retention job ≡ true) ⊎ (rolls_back env retention job ≡ false)
          → (restores manifest.rollback_mode ≡ true) ⊎ (restores manifest.rollback_mode ≡ false)
          → Triple
              (OnFrame (Kept n b p))
              (handle_with_point env retention id manifest message job (some p))
              (λ _. Shaped)
              Shaped
      choose (inl r) (inl m) = rw (r, m) (roll_back-Shaped message p n b lo hi m u)
      choose (inl r) (inr m) =
          rw (r, m)
            (kept _ (
              Keeps-attend (λ f. Shape env manifest f.calls f.recovery_point) env retention id _ _))
      choose (inr r) _ = rw r (kept _ (give_up-Shaped message job))

  find_job-IsReopened :
      (js : List Job) → All (IsReopened id) js → rolls_back env retention (find_job id js) ≡ false
  find_job-IsReopened [] a = refl
  find_job-IsReopened (j ∷ js) a = ground (arith, find_job-IsReopened js a.1)

  handle-Shaped :
      (message : String) (l : Ledger) (f : Frame) (s : Sys W)
      → l ≡ s.ledger
      → f ≡ s.frame
      → InterruptedAt s
      → After
          (λ _. Shaped)
          Shaped
          (branch message f.maintenance_entered f.recovery_point (find_job id l.jobs) s)
  handle-Shaped message l f s el ef (idle n b hi e m p) =
      let em = ap (λ (f : Frame). f.maintenance_entered) ef ∙ m in
      let ep = ap (λ (f : Frame). f.recovery_point) ef ∙ p in
      rw (em, ep)
        ((Triple-Keeps (give_up-Shaped message (find_job id l.jobs))).at s
          (stopped n b (omega arith) e))
  handle-Shaped message l f s el ef (held n b lo hi e m p) =
      let em = ap (λ (f : Frame). f.maintenance_entered) ef ∙ m in
      let ep = ap (λ (f : Frame). f.recovery_point) ef ∙ p in
      rw (em, ep) ((resume-Shaped message n b lo hi).at s e)
  handle-Shaped message l f s el ef (backed n c lo hi e b) =
      let ep = ap (λ (f : Frame). f.recovery_point) ef ∙ b.1 in
      rw (ep, branch-some message f.maintenance_entered b.0 (find_job id l.jobs))
        ((with_point-Shaped message b.0 (find_job id l.jobs) n c lo hi b.2).at s (e, b.1))
  handle-Shaped message l f s el ef (reopened h b a) =
      let ep = ap (λ (f : Frame). f.recovery_point) ef ∙ b.1 in
      let no = find_job-IsReopened l.jobs (rw el a) in
      rw (ep, branch-some message f.maintenance_entered b.0 (find_job id l.jobs), no)
        ((Triple-Keeps (give_up-Shaped message (find_job id l.jobs))).at s h)

  pub Interrupted-Shaped : (s : Sys W) → InterruptedAt s → Shaped s
  Interrupted-Shaped s (idle n b hi e m p) = stopped n b (omega arith) e
  Interrupted-Shaped s (held n b lo hi e m p) = stopped n b (omega arith) e
  Interrupted-Shaped s (backed n c lo hi e b) = halted n c lo hi e b
  Interrupted-Shaped s (reopened h b a) = h

  pub handle_failure-Shaped :
      (message : String)
      → Triple InterruptedAt (handle_failure env retention id manifest message) (λ _. Shaped) Shaped
  unfolding handle_failure gets
  handle_failure-Shaped message =
      Triple-bind
        (Triple-weaken (read_same env (λ f l. Interrupted f l)) (λ s h. h) (λ l s h. h)
          Interrupted-Shaped)
        λ l.
          Triple-bind {Q = λ f s. InterruptedAt s × (l ≡ s.ledger) × (f ≡ s.frame)}
            (record { at = λ s h. (h.0, h.1, refl) })
            λ f. record { at = λ s h. handle-Shaped message l f s h.1 h.2 h.0 }
