-- ===== src/Outbox/Leases.antt =====
-- What a claim leaves in the outbox: every entry at a claimed key holds a new lease.
use forgetbase.Prelude.{
  ℕ, suc, ◌+◌, ◌≤◌, String, ◌≡◌, refl, Bool, true, false, ◌||◌, some, List, [], ◌∷◌, ◌⊎◌, arith,
  All, All-map, All-of, any, ◌==◌, eq_iff, if◌then◌else◌, Bool-cases, inl, inr,
}
use forgetbase.Outbox.{
  processing, Work, Claim, ClaimOptions, Repo, Host, work_key, claim_key, put, lease, lease_all,
  claim, claim_bounds, chosen,
}

-- The lease of `w` runs to `expiry`, under a token that is none of the first `used` ones.
pub record IsLeased (h : Host) (used expiry : ℕ) (w : Work) : Type 0 where
  pub state : w.state ≡ processing
  pub expires : w.lease_expires_at ≡ some expiry
  pub serial : ℕ
  pub fresh : used ≤ serial
  pub token : w.lease_token ≡ some (h.random_uuid serial)

module _ (h : Host) where
  abbrev pub claimed : List Claim → String → Bool
  claimed cs key = any (λ c. claim_key h c == key) cs

  -- Every entry whose key is in `K` is leased.
  abbrev pub AllLeased : ℕ → ℕ → (String → Bool) → List Work → Type 0
  AllLeased used expiry K ws = All (λ w. K (work_key h w) ≡ true → IsLeased h used expiry w) ws

  put-AllLeased :
      (used expiry : ℕ) (K : String → Bool) (w : Work) (ws : List Work)
      → IsLeased h used expiry w
      → AllLeased used expiry K ws
      → AllLeased used expiry (λ k. K k || (work_key h w == k)) (put h w ws)
  unfolding put
  put-AllLeased used expiry K w [] l a = tt
  put-AllLeased used expiry K w (v ∷ vs) l (a, rest) =
      (head (Bool-cases (work_key h v == work_key h w)), put-AllLeased used expiry K w vs l rest)
    where
      head :
          ((work_key h v == work_key h w) ≡ true) ⊎ ((work_key h v == work_key h w) ≡ false)
          → (K (work_key h (if work_key h v == work_key h w then w else v))
              || (work_key h w == work_key h (if work_key h v == work_key h w then w else v)))
            ≡ true
          → IsLeased h used expiry (if work_key h v == work_key h w then w else v)
      head (inl e) = rw e (λ _. l)
      head (inr e) = rw e (λ k. a (
          ground
            (arith, eq_iff (work_key h v) (work_key h w), eq_iff (work_key h w) (work_key h v))))

  lease_all-AllLeased :
      (now duration used : ℕ) (ws : List Work) (r : Repo) (K : String → Bool)
      → used ≤ r.uuids
      → AllLeased used (now + duration) K r.work
      → AllLeased used
          (now + duration)
          (λ k. K k || claimed (lease_all h now duration ws r).0 k)
          (lease_all h now duration ws r).1.work
  unfolding lease_all
  lease_all-AllLeased now duration used [] r K u a = All-map (λ v l k. l (ground arith)) r.work a
  lease_all-AllLeased now duration used (w ∷ ws) r K u a =
      let token = h.random_uuid r.uuids in
      let leased = lease now duration token w in
      All-map (λ v l k. l (ground arith)) _
        (lease_all-AllLeased now duration used ws
          (record { work = put h leased r.work; uuids = suc r.uuids })
          (λ k. K k || (work_key h leased == k)) (omega arith)
          (put-AllLeased used (now + duration) K leased r.work
            (record { state = refl; expires = refl; serial = r.uuids; fresh = u; token = refl }) a))

  -- After a claim every entry at a claimed key holds the claim's lease, under a new token.
  pub claim-AllLeased :
      (o : ClaimOptions) (now : ℕ) (r : Repo)
      → AllLeased r.uuids
          (now + (claim_bounds o).lease_duration_ms)
          (claimed (claim h o now r).0)
          (claim h o now r).1.work
  unfolding claim
  claim-AllLeased o now r =
      lease_all-AllLeased now (claim_bounds o).lease_duration_ms r.uuids (chosen h o now r) r
        (λ _. false) (omega arith) (All-of _ (λ v k. cc) r.work)
