-- ===== src/Updater/Execution/Reopening.antt =====
-- What the changes of a run do to every job of the ledger.
use forgetbase.Prelude.{
  ℕ, String, true, false, ◌≡◌, refl, some, List, [], ◌∷◌, arith, All, All-map, All-of, Result, ok,
  err, Bool-cases, Option-cases, inl, inr, ◌⊎◌, if◌then◌else◌,
}
use forgetbase.Prelude.{◌>>=◌ as bind_result, >>=-eq-ok}
use forgetbase.Updater.Types.{Job, Ledger}
use forgetbase.Updater.Schema.{Formats, parse_job}
use forgetbase.Updater.Store.{drop_last_terminal, bounded}
use forgetbase.Updater.Store.Pruning.{Pruned, here, next, bounded_sound}
use forgetbase.Updater.Env.{
  Env, Sys, Outcome, fine, before, after, lift, read, read_result, replace, write_result, stored,
  write, mutate,
}
use forgetbase.Updater.Env.Triples.{
  Triple, After, Triple-bind, Triple-weaken, Triple-Keeps, Keeps-gets, Keeps-if, Keeps-pure,
  Keeps-throw, keep_then,
}
use forgetbase.Updater.Jobs.{has_id, map_job, try_update_job, update_job}

module _ (Q : Job → Type 0) where
  drop_last_terminal-All :
      (js rest : List Job) → drop_last_terminal js ≡ some rest → All Q js → All Q rest
  unfolding drop_last_terminal
  drop_last_terminal-All [] rest e a = cc
  drop_last_terminal-All (j ∷ js) rest e a = elim (Option-cases (drop_last_terminal js)) [
    | inl last ↦ ground arith
    | inr (kept, found) ↦ ground (arith, drop_last_terminal-All js kept found a.1)
  ]

  Pruned-All :
      (ledger_bytes : Ledger → ℕ) (l : Ledger) (js : List Job)
      → All Q l.jobs
      → Pruned ledger_bytes l js
      → All Q js
  Pruned-All ledger_bytes l js a here = a
  Pruned-All ledger_bytes l js a (next {js = ks} p large e) =
      drop_last_terminal-All ks js e (Pruned-All ledger_bytes l ks a p)

  abbrev pub AllJobs : {W : Type 0} → Sys W → Type 0
  AllJobs s = All Q s.ledger.jobs

module _ (Q R : Job → Type 0) where
  -- Each job of the result satisfies `R`, if the one that it comes from satisfied `Q`.
  pub map_job-All :
      (f : Formats) (id : String) (update : Job → Result Job)
      → ((j : Job) → has_id id j ≡ false → Q j → R j)
      → ((j j' : Job) → has_id id j ≡ true → Q j → update j ≡ ok j' → R j')
      → (js js' : List Job) → map_job f id update js ≡ ok js'
      → All Q js
      → All R js'
  unfolding map_job parse_job
  map_job-All f id update other mine [] js' e a =
      let same : [] ≡ js' = ground arith in rw (← same) tt
  map_job-All f id update other mine (j ∷ js) js' e a =
      let (k, first, e') = >>=-eq-ok _ _ e in
      let (ks, later, e'') = >>=-eq-ok (map_job f id update js) _ e' in
      let same : k ∷ ks ≡ js' = ground arith in
      rw (← same) (
        head k first (Bool-cases (has_id id j)),
        map_job-All f id update other mine js ks later a.1,
      )
    where
      head :
          (k : Job)
          → (if has_id id j then bind_result (update j) (parse_job f) else ok j) ≡ ok k
          → (has_id id j ≡ true) ⊎ (has_id id j ≡ false)
          → R k
      head k e (inl m) =
          let (u, updated, parsed) = >>=-eq-ok (update j) _ (rw m at e) in
          let same : u ≡ k = ground arith in rw (← same) (mine j u m a.0 updated)
      head k e (inr m) =
          let same : ok j ≡ ok k = rw m at e in
          let same' : j ≡ k = ground arith in rw (← same') (other j m a.0)

-- A failed change leaves the ledger as it was or as it was to be, so what both satisfy holds.
module _ {W : Type 0} (env : Env W) (Q R S : Job → Type 0) (old : (j : Job) → Q j → S j)
    (new : (j : Job) → R j → S j) where
  read-Triple : Triple (AllJobs Q) (read env) (λ l s. AllJobs Q s × All Q l.jobs) (AllJobs S)
  unfolding read
  read-Triple = record { at = λ s a. result (env.io s.world).0 s a }
    where
      result :
          (o : Outcome) (s : Sys W)
          → AllJobs Q s
          → After
              (λ l t. AllJobs Q t × All Q l.jobs)
              (AllJobs S)
              (read_result env o s.ledger, record s { world = (env.io s.world).1 })
      result fine s a = (a, a)
      result (before e) s a = All-map old s.ledger.jobs a
      result (after e) s a = All-map old s.ledger.jobs a

  write-Triple :
      (l : Ledger)
      → Triple (λ s. AllJobs Q s × All R l.jobs) (write env l) (λ _. AllJobs R) (AllJobs S)
  unfolding write replace lift
  write-Triple l =
      Triple-bind (record { at = λ s a. kept (bounded env.formats env.ledger_bytes l) s refl a })
        λ k. record { at = λ s a. done (env.io s.world).0 s k a }
    where
      kept :
          (r : Result Ledger) (s : Sys W)
          → bounded env.formats env.ledger_bytes l ≡ r
          → AllJobs Q s × All R l.jobs
          → After (λ k t. AllJobs Q t × All R k.jobs) (AllJobs S) (lift r s)
      kept (ok k) s e a = (
        a.0,
        Pruned-All R env.ledger_bytes l k.jobs a.1
            (bounded_sound env.formats env.ledger_bytes l k e).1,
      )
      kept (err x) s e a = All-map old s.ledger.jobs a.0

      done :
          (o : Outcome) (s : Sys W) (k : Ledger)
          → AllJobs Q s × All R k.jobs
          → After
              (λ _. AllJobs R)
              (AllJobs S)
              (
                write_result env o,
                record s { world = (env.io s.world).1; ledger = stored env o s.ledger k },
              )
      done fine s k a = a.1
      done (before e) s k a = All-map old s.ledger.jobs a.0
      done (after e) s k a = All-map new k.jobs a.1

  pub mutate-Triple :
      (update : Ledger → Result Ledger)
      → ((l l' : Ledger) → update l ≡ ok l' → All Q l.jobs → All R l'.jobs)
      → Triple (AllJobs Q) (mutate env update) (λ _. AllJobs R) (AllJobs S)
  unfolding mutate lift
  mutate-Triple update step = Triple-bind read-Triple λ l.
      Triple-bind {Q = λ l' s. AllJobs Q s × All R l'.jobs}
        (record { at = λ s a. result l (update l) s refl a }) λ l'. write-Triple l'
    where
      result :
          (l : Ledger) (r : Result Ledger) (s : Sys W)
          → update l ≡ r
          → AllJobs Q s × All Q l.jobs
          → After (λ l' t. AllJobs Q t × All R l'.jobs) (AllJobs S) (r, s)
      result l (ok l') s e a = (a.0, step l l' e a.1)
      result l (err x) s e a = All-map old s.ledger.jobs a.0

  -- An update of the job with an id gives `R` to every job, if it gives it to that job and the others
  -- have it.
  pub update_job-Triple :
      (id : String) (update : Job → Job)
      → ((j : Job) → has_id id j ≡ false → Q j → R j)
      → ((j : Job) → has_id id j ≡ true → Q j → R (update j))
      → Triple (AllJobs Q) (update_job env id update) (λ _. AllJobs R) (AllJobs S)
  unfolding update_job try_update_job
  update_job-Triple id update other mine =
      keep_then (Keeps-gets _) (λ s a. All-map old s.ledger.jobs a)
        λ js. Triple-bind (mutate-Triple _ step) λ _.
          Triple-weaken (Triple-Keeps (Keeps-if _ _ _ (Keeps-pure tt) (Keeps-throw _ _))) (λ s a. a)
            (λ _ s a. a) (λ s a. All-map new s.ledger.jobs a)
    where
      step :
          (l l' : Ledger)
          → (bind_result
              (map_job env.formats id (λ j. ok (update j)) l.jobs)
              λ js. ok (record l { jobs = js }))
            ≡ ok l'
          → All Q l.jobs
          → All R l'.jobs
      step l l' e a =
          let (js, mapped, same) =
            >>=-eq-ok (map_job env.formats id (λ j. ok (update j)) l.jobs) _ e in
          let same' : js ≡ l'.jobs = ground arith in
          rw (← same') (
            map_job-All Q R env.formats id (λ j. ok (update j)) other
              (λ j j' m q updated.
                let same : update j ≡ j' = ground arith in rw (← same) (mine j m q))
              l.jobs js mapped a)

-- The job with the id, if the ledger has it, says that writes may have reopened.
abbrev pub IsReopened : String → Job → Type 0
IsReopened id j = has_id id j ≡ true → j.writes_reopened ≡ true

module _ {W : Type 0} (env : Env W) (id : String) where
  pub reopening :
      Triple
        (λ _. Unit {0})
        (update_job env id (λ j. record j { writes_reopened = true }))
        (λ _. AllJobs (IsReopened id))
        (λ _. Unit {0})
  reopening =
      Triple-weaken
        (update_job-Triple env (λ _. Unit {0}) (IsReopened id) (λ _. Unit {0}) (λ _ _. tt)
          (λ _ _. tt) id _ (λ j m _ t. cc) (λ j m _ _. refl))
        (λ s _. All-of (λ _. Unit {0}) (λ _. tt) s.ledger.jobs) (λ _ s a. a) (λ s _. tt)
