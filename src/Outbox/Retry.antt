-- ===== src/Outbox/Retry.antt =====
-- Failed works come back after their delay.
use forgetbase.Prelude.{
  ℕ, zero, suc, ◌+◌, ◌-◌, ◌≤◌, String, ◌≡◌, none, some, List, arith, Option-cases, inl, inr, All-of,
}
use native.Mathlib.Nat.{add-zero}
use forgetbase.Outbox.{
  Work, Claim, ClaimOptions, Repo, Host, work_key, claim_key, get, retry_delay_ms, leased_work,
}
use forgetbase.Outbox.Fencing.{get-All}

retry_delay_ms_step :
    (a : ℕ) → (1000 ≤ retry_delay_ms a) × (retry_delay_ms a ≤ retry_delay_ms (suc a))
unfolding retry_delay_ms
retry_delay_ms_step zero = omega arith
retry_delay_ms_step (suc zero) = omega arith
retry_delay_ms_step (suc (suc zero)) = omega arith
retry_delay_ms_step (suc (suc (suc zero))) = omega arith
retry_delay_ms_step (suc (suc (suc (suc zero)))) = omega arith
retry_delay_ms_step (suc (suc (suc (suc (suc zero))))) = omega arith
retry_delay_ms_step (suc (suc (suc (suc (suc (suc zero)))))) = omega arith
retry_delay_ms_step (suc (suc (suc (suc (suc (suc (suc zero))))))) = omega arith
retry_delay_ms_step (suc (suc (suc (suc (suc (suc (suc (suc n)))))))) = ground arith

retry_delay_ms_last : (n : ℕ) → retry_delay_ms (n + 8) ≡ 300000
unfolding retry_delay_ms
retry_delay_ms_last n = ground arith

add-suc-eq : (a n : ℕ) → a + suc n ≡ suc (a + n)
add-suc-eq a n = omega arith

retry_delay_ms_add : (a n : ℕ) → retry_delay_ms a ≤ retry_delay_ms (a + n)
retry_delay_ms_add a zero = rw add-zero (omega arith)
retry_delay_ms_add a (suc n) =
    rw (add-suc-eq a n) (omega (arith, retry_delay_ms_add a n, retry_delay_ms_step (a + n)))

-- Later attempts wait at least as long; no attempt waits less than a second or more than five
-- minutes.
pub retry_delay_ms_mono :
    (a b : ℕ)
    → a ≤ b
    → (1000 ≤ retry_delay_ms a)
      × (retry_delay_ms a ≤ retry_delay_ms b)
      × (retry_delay_ms b ≤ 300000)
retry_delay_ms_mono a b h =
    let up = retry_delay_ms_add a (b - a) in
    let same : a + (b - a) ≡ b = omega arith in
    let most = retry_delay_ms_add b 8 in
    ((retry_delay_ms_step a).0, rw same at up, omega (arith, most, retry_delay_ms_last b))

abbrev pub anyone : ClaimOptions
anyone = record { tenant_id = none; asset_id = none; limit = none; lease_duration_ms = none }

module _ (h : Host) where
  pub get-key :
      (key : String) (ws : List Work) (w : Work) → get h key ws ≡ some w → work_key h w ≡ key
  get-key key ws w e = (get-All h (λ _. Unit {0}) key ws w e (All-of _ (λ _. tt) ws)).1

  pub leased_work-get :
      (c : Claim) (now : ℕ) (r : Repo) (w : Work)
      → leased_work h c now r ≡ some w
      → get h (claim_key h c) r.work ≡ some w
  unfolding leased_work
  leased_work-get c now r w e = elim (Option-cases (get h (claim_key h c) r.work)) [
    | inl missing ↦ ground arith
    | inr (v, found) ↦ ground arith
  ]
