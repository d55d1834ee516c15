-- ===== src/Updater/Execution/Order.antt =====
-- The order in which a run of an update calls the executor, whatever fails and wherever it fails.
use forgetbase.Prelude.{
  ℕ, suc, ◌≤◌, String, Bool, true, false, ◌≡◌, refl, ◌∙◌, ap, none, List, [], ◌∷◌, ◌++◌, map, arith,
  All, ok, if◌then◌else◌, take,
}
use mathlib.Core.List.{map-append, append_assoc}
use forgetbase.Updater.Schema.{parse_point}
use forgetbase.Updater.Types.{Job, RecoveryPoint, Manifest}
use forgetbase.Updater.Env.{Env, Sys, Run, Frame, Call, pure, throw, mutate}
use forgetbase.Updater.Env.Triples.{
  Triple, Keeps, Triple-bind, Triple-weaken, Triple-Keeps, Triple-and, Triple-catch, Keeps-Triple,
  Keeps_After, Keeps-gets, Keeps-pure, Keeps-bind, keep_then, call_then, call_then_made, lift_then,
  Triple-given, MayReturn, read_same, modify_then,
}
use forgetbase.Updater.Jobs.{complete_job}
use forgetbase.Updater.Execution.{
  update_steps, back_up, verified_point, delete_points, prune_recovery_points, execute_update,
}
use forgetbase.Updater.Execution.Frames.{
  OnFrame, Keeps-mutate, Keeps-update_job, Keeps-set_phase, Keeps-complete_job, Keeps-refresh_view,
  Keeps-ask_view,
}
use forgetbase.Updater.Execution.Reopening.{
  AllJobs, IsReopened, reopening, mutate-Triple, update_job-Triple,
}
use forgetbase.Updater.Execution.Shape.{steps, tried, tried_snoc, Shape, finished, Called, IsBacked}
use forgetbase.Updater.Execution.Handling.{
  InterruptedAt, idle, held, backed, reopened, handle_failure-Shaped,
}

module _ {W : Type 0} (env : Env W) (retention : ℕ) (id : String) (manifest : Manifest) where
  abbrev Broken : Sys W → Type 0
  Broken = InterruptedAt env retention id manifest

  abbrev Idle : ℕ → Bool → Frame → Type 0
  Idle n b f = Called n b f × (f.maintenance_entered ≡ false) × (f.recovery_point ≡ none)

  abbrev Held : ℕ → Bool → Frame → Type 0
  Held n b f = Called n b f × (f.maintenance_entered ≡ true) × (f.recovery_point ≡ none)

  abbrev Ready : ℕ → Bool → Frame → Type 0
  Ready n b f = Called n b f × IsBacked env manifest f.recovery_point

  Idle-Broken : (n : ℕ) (b : Bool) → n ≤ 1 → (s : Sys W) → OnFrame (Idle n b) s → Broken s
  Idle-Broken n b hi s h = idle n b hi h.0 h.1 h.2

  Held-Broken : (n : ℕ) (b : Bool) → 1 ≤ n → n ≤ 3 → (s : Sys W) → OnFrame (Held n b) s → Broken s
  Held-Broken n b lo hi s h = held n b lo hi h.0 h.1 h.2

  Ready-Broken : (n : ℕ) (b : Bool) → 3 ≤ n → n ≤ 6 → (s : Sys W) → OnFrame (Ready n b) s → Broken s
  Ready-Broken n b lo hi s h = backed n b lo hi h.0 h.1

  push :
      (n : ℕ) (c : Call) (b : Bool) (f : Frame)
      → take n steps ++ c ∷ [] ≡ take (suc n) steps
      → Called n true f
      → f.calls ++ (c, b) ∷ [] ≡ tried (take (suc n) steps) b
  push n c b f e h =
      ap (λ cs. cs ++ (c, b) ∷ []) h ∙ tried_snoc (take n steps) c b ∙ ap (λ cs. tried cs b) e

  verified-Triple :
      (p : RecoveryPoint)
      → Triple
          (OnFrame (Held 3 true))
          (verified_point env retention p)
          (λ q s. OnFrame (Held 3 true) s × (q ≡ p) × (p.verified ≡ true))
          Broken
  verified-Triple p = by_case p.verified refl
    where
      by_case :
          (b : Bool)
          → p.verified ≡ b
          → Triple
              (OnFrame (Held 3 true))
              (if b then pure p else throw "Recovery point verification failed")
              (λ q s. OnFrame (Held 3 true) s × (q ≡ p) × (p.verified ≡ true))
              Broken
      by_case true e = unfold pure in record { at = λ s h. (h, refl, e) }
      by_case false e =
          unfold throw in record { at = Held-Broken 3 true (omega arith) (omega arith) }

  back_up-Triple :
      Triple
        (OnFrame (Held 2 true))
        (back_up env retention id manifest)
        (λ _. OnFrame (Ready 3 true))
        Broken
  unfolding back_up
  back_up-Triple =
      keep_then (Keeps-gets _) (Held-Broken 2 true (omega arith) (omega arith)) λ identity.
        call_then_made (λ b. OnFrame (Held 3 b)) _ _
          (λ s h b w. (push 2 _ b s.frame refl h.0, h.1, h.2))
          (Held-Broken 3 false (omega arith) (omega arith))
          λ made. Triple-given λ (r : MayReturn (env.create_recovery_point identity manifest) made).
            lift_then (parse_point made) (Held-Broken 3 true (omega arith) (omega arith))
              λ p parsed. Triple-bind (verified-Triple p) λ q.
                modify_then {H = OnFrame (Ready 3 true)} _
                  (λ s h. (
                    h.0.0,
                    (
                      q,
                      refl,
                      rw h.1 (record {
                        verified = h.2;
                        identity = identity;
                        world = r.0;
                        made = made;
                        returned = r.1;
                        parsed = parsed;
                      }),
                    ),
                  ))
                  λ _.
                    keep_then (Keeps-mutate (Ready 3 true) env _)
                      (Ready-Broken 3 true (omega arith) (omega arith))
                      λ _.
                        Triple-weaken (Triple-Keeps (Keeps-update_job (Ready 3 true) env id _))
                          (λ s h. h) (λ _ s h. h) (Ready-Broken 3 true (omega arith) (omega arith))

  -- after the call that reopens writes
  abbrev DoneFrame : Bool → Frame → Type 0
  DoneFrame b f =
      ((ids : List String) × (f.calls ≡ tried (steps ++ map Call.delete_recovery_point ids) b))
      × IsBacked env manifest f.recovery_point

  abbrev Done : Bool → Sys W → Type 0
  Done b s = AllJobs (IsReopened id) s × DoneFrame b s.frame

  abbrev AnyDone : Sys W → Type 0
  AnyDone s = (b : Bool) × Done b s

  AnyDone-Broken : (s : Sys W) → AnyDone s → Broken s
  AnyDone-Broken s (b, d) = reopened (finished d.1.0.0 b d.1.0.1 d.1.1) d.1.1 d.0

  Done-Broken : (b : Bool) (s : Sys W) → Done b s → Broken s
  Done-Broken b s d = AnyDone-Broken s (b, d)

  delete_points-Done :
      (ps : List RecoveryPoint)
      → Triple (Done true) (delete_points env retention ps) (λ _. Done true) AnyDone
  unfolding delete_points
  delete_points-Done [] =
      Triple-weaken (Triple-Keeps (Keeps-pure {G = Done true} tt)) (λ s d. d) (λ _ s d. d)
        (λ s d. (true, d))
  delete_points-Done (p ∷ ps) =
      call_then Done _ _
        (λ s d b w. (
          d.0,
          (
            (
              d.1.0.0 ++ p.id ∷ [],
              ap (λ cs. cs ++ (Call.delete_recovery_point p.id, b) ∷ []) d.1.0.1
                  ∙ tried_snoc (steps ++ map Call.delete_recovery_point d.1.0.0) _ b
                  ∙ ap (λ cs. tried cs b) (one_more d.1.0.0 p.id),
            ),
            d.1.1,
          ),
        ))
        (λ s d. (false, d)) λ _. delete_points-Done ps
    where
      one_more :
          (ids : List String) (i : String)
          → (steps ++ map Call.delete_recovery_point ids) ++ Call.delete_recovery_point i ∷ []
            ≡ steps ++ map Call.delete_recovery_point (ids ++ i ∷ [])
      one_more ids i = simp (map-append, append_assoc)

  complete_job-Keeps :
      (update : Job → Job)
      → ((j : Job) → (update j).writes_reopened ≡ true)
      → Keeps (AllJobs (IsReopened id)) (complete_job env id update)
  unfolding complete_job
  complete_job-Keeps update sets =
      Keeps-bind _ _ (Keeps-ask_view (λ f l. All (IsReopened id) l.jobs) _) λ t. Keeps-Triple (
        update_job-Triple env (IsReopened id) (IsReopened id) (IsReopened id) (λ _ h. h) (λ _ h. h)
          id _ (λ j m h. h) (λ j m h _. sets j))

  mutate-Keeps :
      (ps : List RecoveryPoint)
      → Keeps (AllJobs (IsReopened id)) (mutate env (λ l. ok (record l { recovery_points = ps })))
  mutate-Keeps ps = Keeps-Triple (
      mutate-Triple env (IsReopened id) (IsReopened id) (IsReopened id) (λ _ h. h) (λ _ h. h) _
        (λ l l' e a. let same : l.jobs ≡ l'.jobs = ground arith in rw (← same) a))

  Keeps-Done :
      {m : Run W (Unit {0})}
      → Keeps (AllJobs (IsReopened id)) m
      → Keeps (OnFrame (DoneFrame true)) m
      → Keeps (Done true) m
  Keeps-Done k l = record { kept = λ s d. (k.kept s d.0, l.kept s d.1) }

  prune-Done : Triple (Done true) (prune_recovery_points env retention) (λ _. Done true) AnyDone
  unfolding prune_recovery_points
  prune-Done =
      Triple-bind
        (Triple-weaken (read_same env (λ f l. All (IsReopened id) l.jobs × DoneFrame true f))
          (λ s d. d) (λ _ s d. d.0) (λ s d. (true, d)))
        λ l. Triple-bind (delete_points-Done _) λ _.
          Triple-weaken
            (Triple-Keeps (Keeps-Done (mutate-Keeps _) (Keeps-mutate (DoneFrame true) env _)))
            (λ s d. d) (λ _ s d. d) (λ s d. (true, d))

  update_steps-Triple :
      Triple
        (OnFrame (Idle 0 true))
        (update_steps env retention id manifest)
        (λ _ s. Shape env manifest s.frame.calls s.frame.recovery_point)
        Broken
  unfolding update_steps
  update_steps-Triple =
      keep_then (Keeps-set_phase (Idle 0 true) env id _ _ _) (Idle-Broken 0 true (omega arith)) λ _.
        call_then (λ b. OnFrame (Idle 1 b)) _ _ (λ s h b w. (push 0 _ b s.frame refl h.0, h.1, h.2))
          (Idle-Broken 1 false (omega arith))
          λ _.
            keep_then (Keeps-set_phase (Idle 1 true) env id _ _ _)
              (Idle-Broken 1 true (omega arith))
              λ _.
                modify_then {H = OnFrame (Held 1 true)} _ (λ s h. (h.0, refl, h.2))
                  λ _.
                    call_then (λ b. OnFrame (Held 2 b)) _ _
                      (λ s h b w. (push 1 _ b s.frame refl h.0, h.1, h.2))
                      (Held-Broken 2 false (omega arith) (omega arith))
                      λ _.
                        keep_then (Keeps-set_phase (Held 2 true) env id _ _ _)
                          (Held-Broken 2 true (omega arith) (omega arith))
                          λ _. Triple-bind back_up-Triple λ _.
                            keep_then (Keeps-set_phase (Ready 3 true) env id _ _ _)
                              (Ready-Broken 3 true (omega arith) (omega arith))
                              λ _.
                                call_then (λ b. OnFrame (Ready 4 b)) _ _
                                  (λ s h b w. (push 3 _ b s.frame refl h.0, h.1))
                                  (Ready-Broken 4 false (omega arith) (omega arith))
                                  λ _.
                                    keep_then (Keeps-set_phase (Ready 4 true) env id _ _ _)
                                      (Ready-Broken 4 true (omega arith) (omega arith))
                                      λ _.
                                        call_then (λ b. OnFrame (Ready 5 b)) _ _
                                          (λ s h b w. (push 4 _ b s.frame refl h.0, h.1))
                                          (Ready-Broken 5 false (omega arith) (omega arith))
                                          λ _.
                                            keep_then (Keeps-set_phase (Ready 5 true) env id _ _ _)
                                              (Ready-Broken 5 true (omega arith) (omega arith))
                                              λ _.
                                                call_then (λ b. OnFrame (Ready 6 b)) _ _
                                                  (λ s h b w. (push 5 _ b s.frame refl h.0, h.1))
                                                  (Ready-Broken 6 false (omega arith) (omega arith))
                                                  λ _.
                                                    Triple-bind
                                                      (Triple-weaken
                                                        (Triple-and (reopening env id) (
                                                          Keeps-update_job (Ready 6 true) env id _))
                                                        (λ s h. (tt, h)) (λ _ s h. h)
                                                        (λ s h.
                                                          Ready-Broken 6 true (omega arith)
                                                            (omega arith) s h.1))
                                                      λ _.
                                                        call_then Done _ _
                                                          (λ s h b w. (
                                                            h.0,
                                                            (
                                                            ([], push 6 _ b s.frame refl h.1.0),
                                                            h.1.1,
                                                            ),
                                                          ))
                                                          (Done-Broken false)
                                                          λ _.
                                                            modify_then {H = Done true} _ (λ s h. h)
                                                            λ _.
                                                            keep_then
                                                            (Keeps-refresh_view
                                                            (λ f l.
                                                            All (IsReopened id) l.jobs
                                                            × DoneFrame true f)
                                                            env retention)
                                                            (Done-Broken true)
                                                            λ _.
                                                            Triple-bind
                                                            (Triple-weaken prune-Done (λ s d. d)
                                                            (λ _ s d. d) AnyDone-Broken)
                                                            λ _.
                                                            Triple-weaken
                                                            (Triple-Keeps (
                                                            Keeps-Done
                                                            (complete_job-Keeps _ (λ j. refl))
                                                            (Keeps-complete_job (DoneFrame true) env
                                                            id _)))
                                                            (λ s d. d)
                                                            (λ _ s d.
                                                            finished d.1.0.0 true d.1.0.1 d.1.1)
                                                            (Done-Broken true)

module _ {W : Type 0} (env : Env W) (retention : ℕ) (id : String) (manifest : Manifest) where
  -- Whatever the executor, the store and the clock do, a run of an update makes its calls in this order and no
  -- others: images are pulled, writers stopped, a recovery point made, then the migration, the start, the check
  -- and the reopening of writes, each only after the one before has returned. A run that has called the migration
  -- has kept a recovery point that the executor has returned for the release, that parses and that is verified.
  -- After one to three of the seven calls a run may resume the current release, once; after three to six of
  -- them it may restore the point that it has kept, once, in the way that the release declares and only if the
  -- release allows one; after the seventh it restores nothing. Old recovery points are removed after all seven calls
  -- have returned only, up to the first removal that fails.
  pub execute_update-Shape :
      (s : Sys W)
      → Shape env manifest
          (execute_update env retention id manifest s).1.frame.calls
          (execute_update env retention id manifest s).1.frame.recovery_point
  unfolding execute_update
  execute_update-Shape s =
      Keeps_After (λ t. Shape env manifest t.frame.calls t.frame.recovery_point)
        (execute_update env retention id manifest s).0
        (execute_update env retention id manifest s).1 (run.at s tt)
    where
      run :
          Triple
            (λ _. Unit {0})
            (execute_update env retention id manifest)
            (λ _ t. Shape env manifest t.frame.calls t.frame.recovery_point)
            (λ t. Shape env manifest t.frame.calls t.frame.recovery_point)
      run =
          modify_then
            {H = OnFrame
              (λ f. (f.calls ≡ []) × (f.maintenance_entered ≡ false) × (f.recovery_point ≡ none))}
            _ (λ s _. (refl, refl, refl))
            λ _.
              Triple-catch (update_steps-Triple env retention id manifest)
                (handle_failure-Shaped env retention id manifest)
