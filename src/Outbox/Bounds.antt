-- ===== src/Outbox/Bounds.antt =====
-- What holds of every entry between two operations, whatever their order.
use forgetbase.Prelude.{
  ℕ, suc, ◌+◌, ◌≤◌, String, ◌≡◌, refl, Option, none, some, List, [], ◌∷◌, arith, All, All-map, ◌⊎◌,
  false, All-append, All-take, All-filter, Option-cases, Bool-cases, inl, inr, is_some, length,
  length-take, ◌==◌, filter,
}
use forgetbase.Outbox.{
  Work, Claim, ClaimOptions, Repo, Host, ErrorCode, Change, Number, whole, minus, other,
  bounded_integer, claim_bounds, is_processing, work_key, claim_key, change_key, get, put, remove,
  lease, release, changed, lease_all, claim, chosen, eligible, leased_work, complete, fail,
  record_change, sort_work,
}
use forgetbase.Outbox.Fencing.{get-All, sort_work-All}
use forgetbase.Outbox.Leases.{claimed, claim-AllLeased}

-- An entry is leased, with a token and an expiry, exactly while it is being processed, and counts
-- at most eight attempts.
pub record IsValid (w : Work) : Type 0 where
  pub attempts_capped : w.attempts ≤ 8
  pub token_held : is_some w.lease_token ≡ is_processing w.state
  pub expiry_held : is_some w.lease_expires_at ≡ is_processing w.state

-- One operation, with the readings of the clock that it takes.
pub data Step (h : Host) (r : Repo) : Repo → Type 0 where
  change : (c : Change) (now : ℕ) → Step h r (record_change h c now r)
  claims : (o : ClaimOptions) (now : ℕ) → Step h r (claim h o now r).1
  completes : (c : Claim) (now : ℕ) → Step h r (complete h c now r).1
  fails : (c : Claim) (code : ErrorCode) (now later : ℕ) → Step h r (fail h c code now later r).1

-- The outboxes that some sequence of operations leads to, from an empty one.
pub data Reach (h : Host) : Repo → Type 0 where
  empty : Reach h (record { work = []; uuids = 0 })
  next : {r s : Repo} → Reach h r → Step h r s → Reach h s

bounded_integer_bounds :
    (value : Option Number) (fallback lo hi : ℕ)
    → lo ≤ fallback
    → fallback ≤ hi
    → lo ≤ hi
    → (lo ≤ bounded_integer value fallback lo hi) × (bounded_integer value fallback lo hi ≤ hi)
unfolding bounded_integer
bounded_integer_bounds none fallback lo hi p q s = (p, q)
bounded_integer_bounds (some (whole n)) fallback lo hi p q s = ground arith
bounded_integer_bounds (some (minus n)) fallback lo hi p q s = ground arith
bounded_integer_bounds (some other) fallback lo hi p q s = (p, q)

changed-IsValid :
    (c : Change) (generation now queued_at : ℕ) → IsValid (changed c generation now queued_at)
changed-IsValid c generation now queued_at = ground arith

release-IsValid :
    (code : ErrorCode) (later : ℕ) (w : Work) → IsValid w → IsValid (release code later w)
release-IsValid code later w v = ground arith

-- The lease of `w` lasts from one millisecond to five minutes after `now`.
pub record IsLasting (now : ℕ) (w : Work) : Type 0 where
  pub expiry : ℕ
  pub expires : w.lease_expires_at ≡ some expiry
  pub least : now + 1 ≤ expiry
  pub most : expiry ≤ now + 300000

module _ (h : Host) where
  pub put-All :
      (P : Work → Type 0) (w : Work) (ws : List Work) → P w → All P ws → All P (put h w ws)
  unfolding put
  put-All P w [] p a = tt
  put-All P w (v ∷ vs) p a = elim (Bool-cases (work_key h v == work_key h w)) [
    | inl e ↦ rw e (p, put-All P w vs p a.1)
    | inr e ↦ rw e (a.0, put-All P w vs p a.1)
  ]

  lease-IsValid :
      (now duration : ℕ) (token : String) (w : Work)
      → IsValid w
      → IsValid (lease now duration token w)
  lease-IsValid now duration token w v = ground arith

  lease_all-IsValid :
      (now duration : ℕ) (ws : List Work) (r : Repo)
      → All IsValid ws
      → All IsValid r.work
      → All IsValid (lease_all h now duration ws r).1.work
  unfolding lease_all
  lease_all-IsValid now duration [] r v a = a
  lease_all-IsValid now duration (w ∷ ws) r v a =
      lease_all-IsValid now duration ws _ v.1
        (put-All IsValid _ r.work (lease-IsValid now duration _ w v.0) a)

  leased_work-IsValid :
      (c : Claim) (now : ℕ) (r : Repo) (w : Work)
      → leased_work h c now r ≡ some w
      → All IsValid r.work
      → IsValid w
  unfolding leased_work
  leased_work-IsValid c now r w e a = elim (Option-cases (get h (claim_key h c) r.work)) [
    | inl missing ↦ ground arith
    | inr (v, found) ↦
        let valid = (get-All h IsValid (claim_key h c) r.work v found a).0 in ground arith
  ]

  -- Each operation keeps every entry valid.
  pub Step-IsValid : {r s : Repo} → Step h r s → All IsValid r.work → All IsValid s.work
  unfolding record_change claim complete fail remove
  Step-IsValid {r} (change c now) a = elim (Option-cases (get h (change_key h c) r.work)) [
    | inl e ↦
        rw (e, record_change) (All-append IsValid r.work _ a (changed-IsValid c 1 now now, tt))
    | inr (w, e) ↦
        rw (e, record_change)
          (put-All IsValid _ r.work (changed-IsValid c (w.generation + 1) now w.queued_at) a)
  ]
  Step-IsValid {r} (claims o now) a =
      lease_all-IsValid now _ (chosen h o now r) r
        (All-take IsValid _ _
          (sort_work-All h IsValid _ (All-filter IsValid (eligible o now) r.work a)))
        a
  Step-IsValid {r} (completes c now) a = elim (Option-cases (leased_work h c now r)) [
    | inl e ↦ rw (e, complete) a
    | inr (w, e) ↦ rw (e, complete) (All-filter IsValid _ r.work a)
  ]
  Step-IsValid {r} (fails c code now later) a = elim (Option-cases (leased_work h c now r)) [
    | inl e ↦ rw (e, fail) a
    | inr (w, e) ↦
        let v = leased_work-IsValid c now r w e a in
        rw (e, fail) (put-All IsValid _ r.work (release-IsValid code later w v) a)
  ]

  -- From an empty outbox, after any sequence of changes, claims, completions and failures, every
  -- entry holds a lease token and an expiry exactly while it is being processed, and counts at most
  -- eight attempts.
  pub Reach-IsValid : {r : Repo} → Reach h r → All IsValid r.work
  Reach-IsValid empty = tt
  Reach-IsValid (next r s) = Step-IsValid s (Reach-IsValid r)

  length-lease_all :
      (now duration : ℕ) (ws : List Work) (r : Repo)
      → length (lease_all h now duration ws r).0 ≡ length ws
  unfolding lease_all
  length-lease_all now duration [] r = refl
  length-lease_all now duration (w ∷ ws) r = omega (
    arith,
    length-lease_all now duration ws (record {
      work = put h (lease now duration (h.random_uuid r.uuids) w) r.work;
      uuids = suc r.uuids;
    }),
  )

  -- A claim returns at most as many works as its bounded limit, and at most one hundred, whatever
  -- numbers its caller passes; and every entry that it leaves is either not claimed by it or holds a lease that
  -- lasts from one millisecond to five minutes.
  pub claim-le-limit :
      (o : ClaimOptions) (now : ℕ) (r : Repo)
      → (length (claim h o now r).0 ≤ (claim_bounds o).limit)
        × (1 ≤ (claim_bounds o).limit)
        × ((claim_bounds o).limit ≤ 100)
        × All
            (λ w. (claimed h (claim h o now r).0 (work_key h w) ≡ false) ⊎ IsLasting now w)
            (claim h o now r).1.work
  unfolding claim claim_bounds
  claim-le-limit o now r =
      let limits =
        bounded_integer_bounds o.limit 25 1 100 (omega arith) (omega arith) (omega arith) in
      let lasts =
        bounded_integer_bounds o.lease_duration_ms 60000 1 300000 (omega arith) (omega arith)
          (omega arith) in
      (
        omega (
          arith,
          length-lease_all now (bounded_integer o.lease_duration_ms 60000 1 300000)
              (chosen h o now r) r,
          length-take (bounded_integer o.limit 25 1 100)
              (sort_work h (filter (eligible o now) r.work)),
        ),
        limits.0,
        limits.1,
        All-map
            (λ w l. elim (Bool-cases (claimed h (claim h o now r).0 (work_key h w))) [
              | inr spare ↦ inl spare
              | inl own ↦ inr (record {
                expiry = now + bounded_integer o.lease_duration_ms 60000 1 300000;
                expires = (l own).expires;
                least = omega (arith, lasts.0);
                most = omega (arith, lasts.1);
              })
            ])
            _ (claim-AllLeased h o now r),
      )
