-- ===== src/Updater/Tests.antt =====
-- Runs of the updater's model, and an instance of each of its theorems.
use forgetbase.Prelude.{
  ℕ, ◌<◌, ◌≤◌, ◌*◌, ◌+◌, ◌^◌, String, Bool, true, false, not, ◌≡◌, ◌≢◌, refl, ap, none, List, [],
  ◌∷◌, length, ok, err, arith, ltb, nat_eq, if◌then◌else◌, codes, inl, inr, Bool-cases,
}
use forgetbase.Updater.Types.{
  Phase, queued, completed, failed, needs_attention, migrating, update, Job, Ledger,
}
use forgetbase.Updater.Schema.{Formats, parse_state}
use forgetbase.Updater.Store.{
  bounded, empty_update_state, max_ledger_bytes, drop_last_terminal, prune,
}
use forgetbase.Updater.Store.Pruning.{Pruned, unfinished, bounded_sound, bounded_complete}
use forgetbase.Updater.Semver.{
  Semver, below, same, semver_sign, compare_semver, prerelease_sign, labels_sign, is_numeric,
  parse_int, parse_int_from, to_double, exponent_from,
}
use forgetbase.Updater.Semver.Order.{
  IsLocaleOrder, semver_sign-flip, semver_sign_trans, leading_zeros_below, flip,
}
use forgetbase.Updater.Semver.Upgrades.{
  supports_upgrade_from, SomeAllows, supports_upgrade_from-SomeAllows,
}

-- texts in the order of their code points
lex_gt : List ℕ → List ℕ → Bool
lex_gt [] r = false
lex_gt (c ∷ cs) [] = true
lex_gt (c ∷ cs) (d ∷ ds) = if nat_eq c d then lex_gt cs ds else ltb d c

lex_gt_irrefl : (l : List ℕ) → lex_gt l l ≡ false
unfolding lex_gt
lex_gt_irrefl [] = refl
lex_gt_irrefl (c ∷ cs) = ground (arith, lex_gt_irrefl cs)

lex_gt-total : (l r : List ℕ) → l ≢ r → lex_gt l r ≡ not (lex_gt r l)
unfolding lex_gt
lex_gt-total [] [] ne = absurd (ne refl)
lex_gt-total [] (d ∷ ds) ne = refl
lex_gt-total (c ∷ cs) [] ne = refl
lex_gt-total (c ∷ cs) (d ∷ ds) ne = elim (Bool-cases (nat_eq c d)) [
  | inl e ↦
      let eq : c ≡ d = ground arith in
      ground (arith, lex_gt-total cs ds (λ q. ne (rw eq (ap (λ xs. d ∷ xs) q))))
  | inr n ↦ ground arith
]

lex_gt_trans : (l m r : List ℕ) → lex_gt m l ≡ true → lex_gt r m ≡ true → lex_gt r l ≡ true
unfolding lex_gt
lex_gt_trans l [] r p q = cc
lex_gt_trans l (d ∷ ds) [] p q = cc
lex_gt_trans [] (d ∷ ds) (e ∷ es) p q = refl
lex_gt_trans (c ∷ cs) (d ∷ ds) (e ∷ es) p q = ground (arith, lex_gt_trans cs ds es)

lex_gt-IsLocaleOrder : IsLocaleOrder lex_gt
lex_gt-IsLocaleOrder = record {
  irrefl = lex_gt_irrefl;
  total = λ l r _ _. lex_gt-total l r;
  trans = lex_gt_trans;
}

-- `1.2.3-alpha`, `1.2.3-alpha.1` and `1.2.3`
abbrev alpha_version : Semver
alpha_version = record { major = 1; minor = 2; patch = 3; prerelease = codes "alpha" ∷ [] }

abbrev numbered_version : Semver
numbered_version = record {
  major = 1;
  minor = 2;
  patch = 3;
  prerelease = codes "alpha" ∷ codes "1" ∷ [];
}

abbrev released_version : Semver
released_version = record { major = 1; minor = 2; patch = 3; prerelease = [] }

semver_sign-flip_example :
    (semver_sign lex_gt alpha_version released_version
      ≡ flip (semver_sign lex_gt released_version alpha_version))
    × (semver_sign lex_gt alpha_version alpha_version ≡ same)
semver_sign-flip_example =
    semver_sign-flip lex_gt lex_gt-IsLocaleOrder alpha_version released_version (refl, tt) tt
      (tt, tt)

alpha_not_numeric : is_numeric (codes "alpha") ≡ false
unfolding is_numeric
alpha_not_numeric = refl

semver_sign_trans_example : semver_sign lex_gt alpha_version released_version ≡ below
unfolding semver_sign prerelease_sign labels_sign
semver_sign_trans_example =
    semver_sign_trans lex_gt lex_gt-IsLocaleOrder alpha_version numbered_version released_version
      (refl, tt) (refl, (refl, tt)) tt
      (((λ _ _ _. refl), ((λ n _ _. cc (n, alpha_not_numeric)), tt)), tt) (tt, (tt, tt)) refl refl

-- `alpha.01` and `alpha.1`
leading_zeros_below_example :
    (semver_sign lex_gt
        (record released_version { prerelease = codes "alpha" ∷ codes "01" ∷ [] })
        (record released_version { prerelease = codes "alpha" ∷ codes "1" ∷ [] })
      ≡ below)
    × (semver_sign lex_gt
          (record released_version { prerelease = codes "alpha" ∷ codes "1" ∷ [] })
          (record released_version { prerelease = codes "alpha" ∷ codes "01" ∷ [] })
        ≡ below)
unfolding is_numeric parse_int parse_int_from to_double
leading_zeros_below_example =
    leading_zeros_below lex_gt released_version (codes "alpha" ∷ []) (codes "01") [] (codes "1") []
      (λ q. let clash : 2 ≡ 1 = ap length q in omega arith) refl refl refl

-- The doubles round from 2 ^ 53 on, and are Infinity from 2 ^ 1024 on.
rounding :
    (parse_int (codes "9007199254740993") ≡ parse_int (codes "9007199254740992"))
    × (to_double (2 ^ 54 + 3) ≡ 2 ^ 54 + 4)
    × (to_double (2 ^ 1024 + 1) ≡ to_double (2 ^ 1025))
unfolding parse_int parse_int_from to_double exponent_from
rounding = (refl, refl, refl)

supports_upgrade_from-SomeAllows_example :
    SomeAllows lex_gt (codes "1.4.0") (codes "1.0.0" ∷ codes ">=1.2.0 <2.0.0" ∷ [])
unfolding supports_upgrade_from
supports_upgrade_from-SomeAllows_example =
    supports_upgrade_from-SomeAllows lex_gt (codes "1.0.0" ∷ codes ">=1.2.0 <2.0.0" ∷ [])
      (codes "1.4.0") refl

-- 1.4.0 is outside the range, and a version with a leading `v` is refused.
supports_upgrade_from-outside :
    (supports_upgrade_from lex_gt (codes ">=1.2.0 <1.4.0" ∷ []) (codes "1.4.0") ≡ ok false)
    × (compare_semver lex_gt (codes "v1.0.0") (codes "1.0.0") ≡ err "Invalid semantic version")
unfolding supports_upgrade_from
supports_upgrade_from-outside = (refl, refl)

abbrev test_formats : Formats
test_formats = record { descriptor_ok = λ _. true; release_ok = λ _. true }

abbrev test_job : String → Phase → Job
test_job id phase = record {
  id = id;
  kind = update;
  phase = phase;
  requested_at = 0;
  scheduled_for = none;
  started_at = none;
  completed_at = none;
  current_version = "1.0.0";
  target_version = "1.1.0";
  manifest_key_id = none;
  recovery_point_id = none;
  progress_percent = 0;
  message = "Queued";
  error_code = none;
  automatic_rollback = true;
  writes_reopened = false;
  approval = none;
}

-- two million bytes for each job
abbrev large : Ledger → ℕ
large l = 2000000 * length l.jobs

abbrev with_jobs : List Job → Ledger
with_jobs js = record empty_update_state { jobs = js }

abbrev crowded : Ledger
crowded = with_jobs (test_job "c" queued ∷ test_job "b" completed ∷ test_job "a" failed ∷ [])

abbrev pruned : Ledger
pruned = with_jobs (test_job "c" queued ∷ test_job "b" completed ∷ [])

bounded_sound_example :
    (large pruned ≤ max_ledger_bytes)
    × Pruned large crowded pruned.jobs
    × (unfinished pruned.jobs ≡ unfinished crowded.jobs)
    × (pruned ≡ record crowded { jobs = pruned.jobs })
unfolding bounded prune drop_last_terminal
bounded_sound_example = bounded_sound test_formats large crowded pruned refl

abbrev stuck : Ledger
stuck = with_jobs (test_job "c" queued ∷ test_job "b" needs_attention ∷ test_job "a" migrating ∷ [])

bounded_complete_example : max_ledger_bytes < large (record stuck { jobs = unfinished stuck.jobs })
unfolding bounded parse_state prune drop_last_terminal
bounded_complete_example =
    bounded_complete test_formats large stuck
      "Updater ledger exceeds 4 MiB; active requests and recovery points cannot be pruned" refl refl
