-- ===== src/Updater/Store/Pruning.antt =====
-- A write of the ledger forgets finished jobs only, the oldest ones first, and as few as needed.
use forgetbase.Prelude.{
  ℕ, zero, suc, ◌≤◌, ◌<◌, String, ◌≡◌, refl, ◌∙◌, not, none, some, List, [], ◌∷◌, length, leb, ok,
  err, >>=-eq-ok, arith, filter, Bool-cases, Option-cases, inl, inr,
}
use forgetbase.Updater.Types.{Job, Ledger, is_terminal}
use forgetbase.Updater.Schema.{Formats, parse_state}
use forgetbase.Updater.Store.{max_ledger_bytes, drop_last_terminal, prune, bounded}

-- the jobs whose phase is not terminal
abbrev pub unfinished : List Job → List Job
unfinished = filter (λ j. not (is_terminal j.phase))

drop_last_terminal-none : (js : List Job) → drop_last_terminal js ≡ none → unfinished js ≡ js
unfolding drop_last_terminal
drop_last_terminal-none [] e = refl
drop_last_terminal-none (j ∷ js) e = elim (Option-cases (drop_last_terminal js)) [
  | inl last ↦ ground (arith, drop_last_terminal-none js last)
  | inr (rest, found) ↦ ground arith
]

drop_last_terminal-some :
    (js rest : List Job)
    → drop_last_terminal js ≡ some rest
    → (unfinished rest ≡ unfinished js) × (suc (length rest) ≡ length js)
unfolding drop_last_terminal
drop_last_terminal-some [] rest e = cc
drop_last_terminal-some (j ∷ js) rest e = elim (Option-cases (drop_last_terminal js)) [
  | inl last ↦ ground arith
  | inr (kept, found) ↦ ground (arith, drop_last_terminal-some js kept found)
]

abbrev with_jobs : Ledger → List Job → Ledger
with_jobs l js = record l { jobs = js }

module _ (ledger_bytes : Ledger → ℕ) where
  -- `Pruned l kept`: `kept` is what is left of the jobs of `l` after some rounds. Each round finds
  -- the ledger too large, and takes out the last job that is in a terminal phase.
  pub data Pruned (l : Ledger) : List Job → Type 0 where
    here : Pruned l l.jobs
    next :
        {js rest : List Job}
        → Pruned l js
        → max_ledger_bytes < ledger_bytes (with_jobs l js)
        → drop_last_terminal js ≡ some rest
        → Pruned l rest

  Pruned-unfinished :
      {l : Ledger} {kept : List Job} → Pruned l kept → unfinished kept ≡ unfinished l.jobs
  Pruned-unfinished here = refl
  Pruned-unfinished (next {js} {rest} p large e) =
      (drop_last_terminal-some js rest e).0 ∙ Pruned-unfinished p

  prune_sound :
      (fuel : ℕ) (l l' : Ledger) (js : List Job)
      → Pruned l js
      → prune ledger_bytes fuel (with_jobs l js) ≡ ok l'
      → (ledger_bytes l' ≤ max_ledger_bytes) × Pruned l l'.jobs × (l' ≡ with_jobs l l'.jobs)
  unfolding prune
  prune_sound zero l l' js p e = cc
  prune_sound (suc fuel) l l' js p e =
      elim (Bool-cases (leb (ledger_bytes (with_jobs l js)) max_ledger_bytes)) [
        | inl fits ↦
            let same : with_jobs l js ≡ l' = ground arith in rw (← same) (ground arith, p, refl)
        | inr large ↦ elim (Option-cases (drop_last_terminal js)) [
          | inl stuck ↦ ground arith
          | inr (rest, found) ↦
              prune_sound fuel l l' rest (next p (ground arith) found) (ground arith)
        ]
      ]

  prune_complete :
      (fuel : ℕ) (l : Ledger) (js : List Job) (e : String)
      → length js < fuel
      → prune ledger_bytes fuel (with_jobs l js) ≡ err e
      → max_ledger_bytes < ledger_bytes (with_jobs l (unfinished js))
  unfolding prune
  prune_complete zero l js e h p = elim h [ ]
  prune_complete (suc fuel) l js e h p =
      elim (Bool-cases (leb (ledger_bytes (with_jobs l js)) max_ledger_bytes)) [
        | inl fits ↦ ground arith
        | inr large ↦ elim (Option-cases (drop_last_terminal js)) [
          | inl stuck ↦ rw (drop_last_terminal-none js stuck) (ground arith)
          | inr (rest, found) ↦
              let (same, shorter) = drop_last_terminal-some js rest found in
              rw (← same) (prune_complete fuel l rest e (omega arith) (ground arith))
        ]
      ]

parse_state-eq : (f : Formats) (l parsed : Ledger) → parse_state f l ≡ ok parsed → l ≡ parsed
unfolding parse_state
parse_state-eq f l parsed e = ground arith

module _ (f : Formats) (ledger_bytes : Ledger → ℕ) where
  -- What a write stores fits into 4 MiB. It differs from what was to be written only in its jobs:
  -- finished jobs are gone, the last ones first and none more than needed, and every job that is not
  -- in a terminal phase is kept, in its place among the others.
  pub bounded_sound :
      (l l' : Ledger)
      → bounded f ledger_bytes l ≡ ok l'
      → (ledger_bytes l' ≤ max_ledger_bytes)
        × Pruned ledger_bytes l l'.jobs
        × (unfinished l'.jobs ≡ unfinished l.jobs)
        × (l' ≡ record l { jobs = l'.jobs })
  unfolding bounded
  bounded_sound l l' e =
      let (parsed, valid, pruned) = >>=-eq-ok (parse_state f l) _ e in
      let same = parse_state-eq f l parsed valid in
      let (fits, removed, rest) =
        prune_sound ledger_bytes (suc (length l.jobs)) l l' l.jobs here (rw (← same) at pruned) in
      (fits, removed, Pruned-unfinished ledger_bytes removed, rest)

  -- A write of a ledger that passes the schemas fails only if it would be too large even without any
  -- finished job.
  pub bounded_complete :
      (l : Ledger) (e : String)
      → parse_state f l ≡ ok l
      → bounded f ledger_bytes l ≡ err e
      → max_ledger_bytes < ledger_bytes (record l { jobs = unfinished l.jobs })
  unfolding bounded
  bounded_complete l e valid p =
      prune_complete ledger_bytes (suc (length l.jobs)) l l.jobs e (omega arith) (rw valid at p)
