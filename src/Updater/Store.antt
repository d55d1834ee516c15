-- ===== src/Updater/Store.antt =====
-- packages/updater/src/store.ts: what a write of the ledger keeps.
-- `ledger_bytes` is the length of the ledger's JSON text, which the JavaScript host serialises.
pub mod Pruning
use forgetbase.Prelude.{
  ℕ, zero, suc, ◌*◌, Bool, Option, none, some, List, [], ◌∷◌, length, leb, if◌then◌else◌, Result,
  ok, err, ◌>>=◌,
}
use forgetbase.Updater.Types.{Job, Ledger, FeedStatus, not_checked, is_terminal}
use forgetbase.Updater.Schema.{Formats, parse_state}

abbrev pub max_ledger_bytes : ℕ
max_ledger_bytes = 4 * 1024 * 1024

-- `emptyUpdateState`
abbrev pub empty_update_state : Ledger
empty_update_state = record {
  available_update = none;
  last_checked_at = none;
  feed_status = not_checked;
  jobs = [];
  recovery_points = [];
}

-- The list without its last job in a terminal phase; `none` where no job is in one.
unfoldable pub drop_last_terminal : List Job → Option (List Job)
drop_last_terminal [] = none
drop_last_terminal (j ∷ js) = elim (drop_last_terminal js) [
  | some rest ↦ some (j ∷ rest)
  | none ↦ if is_terminal j.phase then some js else none
]

-- The `while` loop of `write`, with fuel: each round removes a job.
unfoldable pub prune : (Ledger → ℕ) → ℕ → Ledger → Result Ledger
prune ledger_bytes zero l = err "out of fuel"
prune ledger_bytes (suc fuel) l =
    if leb (ledger_bytes l) max_ledger_bytes then ok l else elim (drop_last_terminal l.jobs) [
      | none ↦
          err "Updater ledger exceeds 4 MiB; active requests and recovery points cannot be pruned"
      | some rest ↦ prune ledger_bytes fuel (record l { jobs = rest })
    ]

-- `write`: the ledger whose text is stored, or why nothing is
unfoldable pub bounded : Formats → (Ledger → ℕ) → Ledger → Result Ledger
unfolding parse_state
bounded f ledger_bytes l = do
  parsed ← parse_state f l
  prune ledger_bytes (suc (length parsed.jobs)) parsed
