-- ===== src/Outbox/Tests.antt =====
-- Runs of the outbox, and its theorems at concrete inputs.
use Prim.Native.Char.{Char}
use Prim.Native.String
use forgetbase.Prelude.{
  ℕ, zero, suc, ◌-◌, ◌⊎◌, none, ◌≤◌, String, ◌≡◌, refl, ap, true, false, some, List, [], ◌∷◌, map,
  arith, All, length,
}
use forgetbase.Outbox.{
  Claim, Change, ClaimOptions, Repo, Host, whole, minus, asset_index_failed, claim_key, work_key,
  claim, claim_bounds, complete, fail, record_change, get, eligible, retry_delay_ms, get_health,
  lease_all, put, sort_work, insert_work, leased_work, bounded_integer, not_after, remove,
}
use forgetbase.Outbox.Leases.{claimed}
use forgetbase.Outbox.Fencing.{IsFenced, claim_fences, change_fences}
use forgetbase.Outbox.Exclusive.{nothing_yet, claims, changes, claim_exclusive}
use forgetbase.Outbox.Bounds.{
  IsValid, IsLasting, empty, next, change, claims as step_claims, Reach-IsValid, claim-le-limit,
}
use forgetbase.Outbox.Retry.{anyone, retry_delay_ms_mono}
use forgetbase.Outbox.Report.{Counted, IsOldest, wanted, get_health_exact}

abbrev mark : Char
mark = "a"

abbrev tally : ℕ → String
tally zero = String.[]
tally (suc n) = String.◌∷◌ mark (tally n)

tally_injective : (i j : ℕ) → tally i ≡ tally j → i ≡ j
tally_injective zero zero e = refl
tally_injective zero (suc j) e = cc
tally_injective (suc i) zero e = cc
tally_injective (suc i) (suc j) e = ap suc (tally_injective i j (cc))

abbrev host : Host
host = record { stringify = λ a b. String.◌++◌ a b; locale_le = λ a b. true; random_uuid = tally }

abbrev page : Change
page = record { tenant_id = "t"; asset_id = "1"; stable_id = "page" }

abbrev other_page : Change
other_page = record { tenant_id = "t"; asset_id = "2"; stable_id = "other" }

abbrev queued : Repo
queued =
    record_change host other_page 12 (record_change host page 10 (record { work = []; uuids = 0 }))

abbrev taken : List Claim × Repo
taken = claim host anyone 20 queued

abbrev first_claim : Claim
first_claim = record {
  tenant_id = "t";
  asset_id = "1";
  stable_id = "page";
  generation = 1;
  lease_token = tally 0;
  attempts = 1;
}

opened : Unit {0}
unfolding claim lease_all put sort_work insert_work not_after claim_bounds bounded_integer eligible
    record_change get complete fail leased_work remove retry_delay_ms
opened = tt

-- The oldest work comes first, and each claim carries a token of its own.
claim_run : map (λ (c : Claim). c.lease_token) taken.0 ≡ tally 0 ∷ tally 1 ∷ []
unfolding opened
claim_run = refl

complete_run : (complete host first_claim 25 taken.1).0 ≡ true
unfolding opened
complete_run = refl

late_run : (complete host first_claim 60020 taken.1).0 ≡ false
unfolding opened
late_run = refl

-- after another claim and a change of a third work
abbrev third_page : Change
third_page = record { tenant_id = "t"; asset_id = "3"; stable_id = "third" }

abbrev busy : Repo
busy = record_change host third_page 31 (claim host anyone 30 taken.1).1

claim_exclusive_example :
    All (λ c. claimed host taken.0 (claim_key host c) ≡ false) (claim host anyone 60019 busy).0
unfolding opened
claim_exclusive_example =
    claim_exclusive host anyone anyone 20 60019 queued busy
      (changes (claims nothing_yet anyone 30 (omega arith)) third_page 31 refl) (omega arith)

claim_fences_example : IsFenced host first_claim (claim host anyone 60020 taken.1).1
unfolding opened
claim_fences_example =
    claim_fences host tally_injective first_claim 0 anyone 60020 taken.1 refl (omega arith) refl

change_fences_example : IsFenced host first_claim (record_change host page 30 taken.1)
change_fences_example = change_fences host page 30 first_claim taken.1 refl

Reach-IsValid_example : All IsValid (claim host anyone 20 queued).1.work
Reach-IsValid_example =
    Reach-IsValid host
      (next (next (next empty (change page 10)) (change other_page 12)) (step_claims anyone 20))

abbrev greedy : ClaimOptions
greedy = record anyone { limit = some (whole 1000); lease_duration_ms = some (minus 5) }

claim-le-limit_example :
    (length (claim host greedy 20 queued).0 ≤ (claim_bounds greedy).limit)
    × (1 ≤ (claim_bounds greedy).limit)
    × ((claim_bounds greedy).limit ≤ 100)
    × All
        (λ w.
          (claimed host (claim host greedy 20 queued).0 (work_key host w) ≡ false) ⊎ IsLasting 20 w)
        (claim host greedy 20 queued).1.work
claim-le-limit_example = claim-le-limit host greedy 20 queued

retry_delay_ms_mono_example :
    (1000 ≤ retry_delay_ms 2) × (retry_delay_ms 2 ≤ retry_delay_ms 9) × (retry_delay_ms 9 ≤ 300000)
retry_delay_ms_mono_example = retry_delay_ms_mono 2 9 (omega arith)

abbrev failed_once : Repo
failed_once = (fail host first_claim asset_index_failed 25 26 taken.1).1

get_health_exact_example :
    Counted
      (some "t")
      taken.1.work
      (get_health (some "t") 50 taken.1).pending
      (get_health (some "t") 50 taken.1).processing
      (get_health (some "t") 50 taken.1).failed
    × (((wanted (some "t") taken.1.work ≡ [])
          × ((get_health (some "t") 50 taken.1).oldest_pending_at ≡ none)
          × ((get_health (some "t") 50 taken.1).oldest_pending_age_ms ≡ none))
        ⊎ ((t : ℕ) × IsOldest t (wanted (some "t") taken.1.work)
            × ((get_health (some "t") 50 taken.1).oldest_pending_at ≡ some t)
            × ((get_health (some "t") 50 taken.1).oldest_pending_age_ms ≡ some (50 - t))))
get_health_exact_example = get_health_exact (some "t") 50 taken.1
