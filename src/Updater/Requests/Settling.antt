-- ===== src/Updater/Requests/Settling.antt =====
-- What is left of the active jobs after a restart.
use forgetbase.Prelude.{
  ℕ, ◌≤◌, Bool, true, false, not, ◌≡◌, refl, sym, ap, ◌∙◌, List, [], ◌∷◌, Result, ok, err,
  if◌then◌else◌, length, nat_eq, All, Bool-cases, inl, inr, ◌⊎◌, arith, is_some, is_none,
}
use forgetbase.Updater.Types.{Phase, Job, Ledger, is_active, is_terminal, Approval}
use forgetbase.Updater.Schema.{Formats, parse_job}
use forgetbase.Updater.Store.{bounded}
use forgetbase.Updater.Store.Pruning.{unfinished, bounded_sound}
use forgetbase.Updater.Env.{
  Env, Sys, Run, Outcome, pure, lift, catch, read, replace, write, stored, write_result, ◌>>=◌,
}
use forgetbase.Updater.Env.Triples.{Triple, After, Triple-bind, Triple-catch}
use forgetbase.Updater.Approval.{takes_decision}
use forgetbase.Updater.Requests.{
  active, awaits_decision, quarantine, interrupted, expire, keep_or_expire, resettle, reconcile_job,
  reconcile_all, reconcile_interrupted_jobs,
}

active-unfinished : (js : List Job) → active (unfinished js) ≡ active js
active-unfinished [] = refl
active-unfinished (j ∷ js) =
    by_phase (Bool-cases (is_active j.phase)) (Bool-cases (is_terminal j.phase))
      (active-unfinished js)
  where
    either : (p : Phase) → is_active p ≡ true → is_terminal p ≡ false
    either p a = ground arith

    by_phase :
        (is_active j.phase ≡ true) ⊎ (is_active j.phase ≡ false)
        → (is_terminal j.phase ≡ true) ⊎ (is_terminal j.phase ≡ false)
        → active (unfinished js) ≡ active js
        → active (unfinished (j ∷ js)) ≡ active (j ∷ js)
    by_phase (inl a) (inl t) ih = cc (either j.phase a, t)
    by_phase (inl a) (inr t) ih = rw (t, a) (ap (λ ks. j ∷ ks) ih)
    by_phase (inr a) (inl t) ih = rw (t, a) ih
    by_phase (inr a) (inr t) ih = rw (t, a) ih

length-active : (j : Job) (js : List Job) → length (active js) ≤ length (active (j ∷ js))
length-active j js = elim (Bool-cases (is_active j.phase)) [
  | inl a ↦ rw a (omega arith)
  | inr a ↦ rw a (omega arith)
]

-- A job that a host decision may still start, and nothing of which has been run.
pub record IsAwaiting (j : Job) : Type 0 where
  pub decidable : takes_decision j.phase ≡ true
  pub requested : is_some j.approval ≡ true
  pub not_started : is_none j.started_at ≡ true
  pub not_reopened : j.writes_reopened ≡ false

-- At most one job is active, and it awaits a decision.
abbrev pub IsSettled : List Job → Type 0
IsSettled js = All IsAwaiting (active js) × (length (active js) ≤ 1)

IsSettled-bounded :
    (f : Formats) (ledger_bytes : Ledger → ℕ) (l l' : Ledger)
    → bounded f ledger_bytes l ≡ ok l'
    → IsSettled l.jobs
    → IsSettled l'.jobs
IsSettled-bounded f ledger_bytes l l' e settled =
    let (_, _, same, _) = bounded_sound f ledger_bytes l l' e in
    let eq : active l.jobs ≡ active l'.jobs =
      sym (active-unfinished l.jobs) ∙ ap active (sym same) ∙ active-unfinished l'.jobs in
    rw (← eq) settled

module _ {W : Type 0} where
  -- A run whose result satisfies `Q`, if it returns.
  abbrev Gives : {A : Type 0} → Run W A → (A → Type 0) → Type 0
  Gives m Q = Triple (λ _. Unit {0}) m (λ a _. Q a) (λ _. Unit {0})

  given_by : {A : Type 0} (m : Run W A) → Gives m (λ _. Unit {0})
  given_by {A = A} m = record { at = λ s _. result (m s).0 (m s).1 }
    where
      result : (r : Result A) (t : Sys W) → After (λ _ _. Unit {0}) (λ _. Unit {0}) (r, t)
      result (ok a) t = tt
      result (err e) t = tt

  Gives-bind :
      {A B : Type 0} {Q : A → Type 0} {R : B → Type 0} {m : Run W A} (f : A → Run W B)
      → Gives m Q
      → ((a : A) → Q a → Gives (f a) R)
      → Gives (m >>= f) R
  Gives-bind f g k = Triple-bind g λ a. record { at = λ s q. (k a q).at s tt }

  Gives-pure : {A : Type 0} {Q : A → Type 0} (a : A) → Q a → Gives (pure a) Q
  unfolding pure
  Gives-pure a q = record { at = λ s _. q }

module _ {W : Type 0} (env : Env W) where
  -- what a job that is found becomes
  abbrev Reconciled : Bool → Job → Job → Type 0
  Reconciled alone j k =
      is_active k.phase ≡ true → (is_active j.phase ≡ true) × (alone ≡ true) × IsAwaiting k

  parse_job-Gives :
      (k : Job) {Q : Job → Type 0} → Q k → Gives (lift {W = W} (parse_job env.formats k)) Q
  unfolding lift parse_job
  parse_job-Gives k {Q} q = record { at = λ s _. result (parse_job env.formats k) s refl }
    where
      result :
          (r : Result Job) (t : Sys W)
          → parse_job env.formats k ≡ r
          → After (λ a _. Q a) (λ _. Unit {0}) (r, t)
      result (ok a) t e = let same : k ≡ a = ground arith in rw (← same) q
      result (err x) t e = tt

  quarantine-Reconciled : (alone : Bool) (j : Job) → Gives (quarantine env j) (Reconciled alone j)
  unfolding quarantine
  quarantine-Reconciled alone j = Gives-bind _ (given_by _) λ now _. parse_job-Gives _ (λ a. cc a)

  resettle-Reconciled :
      (alone : Bool) (j : Job)
      → is_active j.phase ≡ true
      → alone ≡ true
      → IsAwaiting j
      → Gives (resettle env j) (Reconciled alone j)
  unfolding resettle interrupted keep_or_expire expire
  resettle-Reconciled alone j a only w =
      Gives-bind _ (given_by _)
        λ approval _. Gives-bind _ (given_by _) λ used _. outcome used approval
    where
      late : (b : Bool) → Gives (if b then expire env j else pure j) (Reconciled alone j)
      late true = Gives-bind _ (given_by _) λ now _. Gives-pure _ (λ x. cc x)
      late false = Gives-pure j (λ x. (a, only, w))

      outcome :
          (used : Bool) (approval : Approval)
          → Gives
              (if used then interrupted env j else keep_or_expire env j approval)
              (Reconciled alone j)
      outcome true approval = Gives-bind _ (given_by _) λ now _. Gives-pure _ (λ x. cc x)
      outcome false approval = Gives-bind _ (given_by _) λ now _. late _

  awaits_decision-IsAwaiting :
      (alone : Bool) (j : Job) → awaits_decision alone j ≡ true → (alone ≡ true) × IsAwaiting j
  awaits_decision-IsAwaiting alone j e = (
    ground arith,
    record {
      decidable = ground arith;
      requested = ground arith;
      not_started = ground arith;
      not_reopened = ground arith;
    },
  )

  reconcile_job-Reconciled :
      (alone : Bool) (j : Job) → Gives (reconcile_job env alone j) (Reconciled alone j)
  unfolding reconcile_job
  reconcile_job-Reconciled alone j = choose (is_active j.phase) (awaits_decision alone j) refl refl
    where
      choose :
          (a w : Bool)
          → is_active j.phase ≡ a
          → awaits_decision alone j ≡ w
          → Gives
              (if not a
                then pure j
                else if w
                then catch (resettle env j) (λ _. quarantine env j)
                else quarantine env j)
              (Reconciled alone j)
      choose false w i _ = Gives-pure j (λ a. cc (a, i))
      choose true true a w =
          let (only, waiting) = awaits_decision-IsAwaiting alone j w in
          Triple-catch (resettle-Reconciled alone j a only waiting)
            (λ _. quarantine-Reconciled alone j)
      choose true false a w = quarantine-Reconciled alone j

  -- what the jobs that are found become
  abbrev AllReconciled : Bool → List Job → List Job → Type 0
  AllReconciled alone js ks =
      All IsAwaiting (active ks)
      × (length (active ks) ≤ length (active js))
      × (alone ≡ false → length (active ks) ≤ 0)

  AllReconciled-cons :
      (alone : Bool) (j k : Job) (js ks : List Job)
      → Reconciled alone j k
      → AllReconciled alone js ks
      → AllReconciled alone (j ∷ js) (k ∷ ks)
  AllReconciled-cons alone j k js ks r (w, shorter, quiet) = elim (Bool-cases (is_active k.phase)) [
    | inl a ↦
        let (b, only, waiting) = r a in rw (a, b) ((waiting, w), omega arith, λ f. cc (f, only))
    | inr a ↦ rw a (w, omega (arith, shorter, length-active j js), quiet)
  ]

  reconcile_all-AllReconciled :
      (alone : Bool) (js : List Job) → Gives (reconcile_all env alone js) (AllReconciled alone js)
  unfolding reconcile_all
  reconcile_all-AllReconciled alone [] = Gives-pure [] (tt, omega arith, λ _. omega arith)
  reconcile_all-AllReconciled alone (j ∷ js) =
      Gives-bind _ (reconcile_job-Reconciled alone j) λ k r.
        Gives-bind _ (reconcile_all-AllReconciled alone js)
          λ ks rs. Gives-pure (k ∷ ks) (AllReconciled-cons alone j k js ks r rs)

  AllReconciled-IsSettled :
      (js ks : List Job) → AllReconciled (nat_eq (length (active js)) 1) js ks → IsSettled ks
  AllReconciled-IsSettled js ks (w, shorter, quiet) =
      elim (Bool-cases (nat_eq (length (active js)) 1)) [
        | inl one ↦ (w, ground arith)
        | inr other ↦ (w, omega (arith, quiet other))
      ]

  replace-IsSettled :
      (l : Ledger)
      → IsSettled l.jobs
      → Triple (λ _. Unit {0}) (replace env l) (λ _ s. IsSettled s.ledger.jobs) (λ _. Unit {0})
  unfolding replace
  replace-IsSettled l settled = record { at = λ s _. by_outcome (env.io s.world).0 s }
    where
      by_outcome :
          (o : Outcome) (s : Sys W)
          → After
              (λ _ t. IsSettled t.ledger.jobs)
              (λ _. Unit {0})
              (
                write_result env o,
                record s { world = (env.io s.world).1; ledger = stored env o s.ledger l },
              )
      by_outcome Outcome.fine s = settled
      by_outcome (Outcome.before e) s = tt
      by_outcome (Outcome.after e) s = tt

  write-IsSettled :
      (l : Ledger)
      → IsSettled l.jobs
      → Triple (λ _. Unit {0}) (write env l) (λ _ s. IsSettled s.ledger.jobs) (λ _. Unit {0})
  unfolding write lift
  write-IsSettled l settled =
      Triple-bind (bounded-Gives (bounded env.formats env.ledger_bytes l) refl)
        λ k. record { at = λ s q. (replace-IsSettled k q).at s tt }
    where
      bounded-Gives :
          (r : Result Ledger)
          → bounded env.formats env.ledger_bytes l ≡ r
          → Gives {W = W} (lift r) (λ k. IsSettled k.jobs)
      bounded-Gives (ok k) e = record {
        at = λ s _. IsSettled-bounded env.formats env.ledger_bytes l k e settled;
      }
      bounded-Gives (err x) e = record { at = λ s _. tt }

  reconcile-Triple :
      (running : ℕ)
      → Triple
          (λ _. Unit {0})
          (reconcile_interrupted_jobs env running)
          (λ _ s. IsSettled s.ledger.jobs)
          (λ _. Unit {0})
  unfolding reconcile_interrupted_jobs
  reconcile-Triple running = Triple-bind (given_by _) λ _. Triple-bind (given_by (read env)) λ l.
      Triple-bind (reconcile_all-AllReconciled (nat_eq (length (active l.jobs)) 1) l.jobs) λ ks.
        record { at = λ s q. (write-IsSettled _ (AllReconciled-IsSettled l.jobs ks q)).at s tt }

  result_ok :
      (Q : Sys W → Type 0) (r : Result (Unit {0})) (t : Sys W)
      → After (λ _. Q) (λ _. Unit {0}) (r, t)
      → r ≡ ok tt
      → Q t
  result_ok Q (ok a) t q e = q
  result_ok Q (err x) t q e = cc

  -- After a restart that succeeds, whatever was interrupted, at most one job is active; it has an
  -- approval, awaits a decision, has not been started and has not reopened writes.
  pub reconcile-IsSettled :
      (running : ℕ) (s : Sys W)
      → (reconcile_interrupted_jobs env running s).0 ≡ ok tt
      → IsSettled (reconcile_interrupted_jobs env running s).1.ledger.jobs
  reconcile-IsSettled running s e =
      result_ok (λ t. IsSettled t.ledger.jobs) (reconcile_interrupted_jobs env running s).0
        (reconcile_interrupted_jobs env running s).1 ((reconcile-Triple running).at s tt) e
