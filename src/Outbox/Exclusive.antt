-- ===== src/Outbox/Exclusive.antt =====
-- packages/db/src/asset-change-outbox.ts: leases exclude one another.
use forgetbase.Prelude.{
  ℕ, suc, ◌+◌, ◌≤◌, ◌<◌, String, ◌≡◌, ◌∙◌, ap, Bool, true, false, some, List, [], ◌∷◌, inl, inr,
  arith, All, All-map, All-append, All-filter, All-filter_map, All-take, Bool-cases, Option-cases,
}
use forgetbase.Outbox.{
  processing, Work, Claim, ClaimOptions, Repo, Host, ErrorCode, Change, work_key, claim_key,
  change_key, get, put, lease, lease_all, claim, claim_bounds, chosen, eligible, leased_work,
  complete, fail, remove, release, changed, record_change,
}
use forgetbase.Outbox.Leases.{claimed, claim-AllLeased}
use forgetbase.Outbox.Fencing.{sort_work-All}
use forgetbase.Outbox.Bounds.{put-All}
use forgetbase.Outbox.Retry.{leased_work-get, get-key}

-- The work is leased until `expiry`.
pub record IsBusy (expiry : ℕ) (w : Work) : Type 0 where
  pub state : w.state ≡ processing
  pub expires : w.lease_expires_at ≡ some expiry

eligible-IsBusy :
    (o : ClaimOptions) (now expiry : ℕ) (w : Work)
    → eligible o now w ≡ true
    → IsBusy expiry w
    → expiry ≤ now
unfolding eligible
eligible-IsBusy o now expiry w e l = ground arith

-- What may happen to an outbox until `expiry` without ending the leases of the works in `K`: claims, completions,
-- and failures and changes of other works.
pub data Meanwhile (h : Host) (K : String → Bool) (expiry : ℕ) (r : Repo) : Repo → Type 0 where
  nothing_yet : Meanwhile h K expiry r r
  claims :
      {s : Repo}
      → Meanwhile h K expiry r s
      → (o : ClaimOptions) (now : ℕ) → now < expiry
      → Meanwhile h K expiry r (claim h o now s).1
  completes :
      {s : Repo}
      → Meanwhile h K expiry r s
      → (c : Claim) (now : ℕ) → Meanwhile h K expiry r (complete h c now s).1
  fails :
      {s : Repo}
      → Meanwhile h K expiry r s
      → (c : Claim) (code : ErrorCode) (now later : ℕ) → K (claim_key h c) ≡ false
      → Meanwhile h K expiry r (fail h c code now later s).1
  changes :
      {s : Repo}
      → Meanwhile h K expiry r s
      → (c : Change) (now : ℕ) → K (change_key h c) ≡ false
      → Meanwhile h K expiry r (record_change h c now s)

module _ (h : Host) (K : String → Bool) (expiry : ℕ) where
  abbrev Guarded : Work → Type 0
  Guarded w = K (work_key h w) ≡ true → IsBusy expiry w

  Guarded-other : (w : Work) → K (work_key h w) ≡ false → Guarded w
  Guarded-other w other own = absurd (ground (arith, other, own))

  abbrev Free : Work → Type 0
  Free w = K (work_key h w) ≡ false

  chosen-Free :
      (o : ClaimOptions) (now : ℕ) (r : Repo)
      → now < expiry
      → All Guarded r.work
      → All Free (chosen h o now r)
  chosen-Free o now r early a =
      All-take _ _ _ (sort_work-All h _ _ (All-filter_map (eligible o now) free r.work a))
    where
      free : (w : Work) → eligible o now w ≡ true → Guarded w → Free w
      free w e g = elim (Bool-cases (K (work_key h w))) [
        | inl own ↦ absurd (omega (arith, early, eligible-IsBusy o now expiry w e (g own)))
        | inr other ↦ other
      ]

  lease_all-Guarded :
      (now duration : ℕ) (ws : List Work) (r : Repo)
      → All Free ws
      → All Guarded r.work
      → All Guarded (lease_all h now duration ws r).1.work
        × All (λ c. K (claim_key h c) ≡ false) (lease_all h now duration ws r).0
  unfolding lease_all
  lease_all-Guarded now duration [] r f a = (a, tt)
  lease_all-Guarded now duration (w ∷ ws) r f a =
      let leased = lease now duration (h.random_uuid r.uuids) w in
      let rest =
        lease_all-Guarded now duration ws
          (record { work = put h leased r.work; uuids = suc r.uuids }) f.1
          (put-All h Guarded leased r.work (Guarded-other leased f.0) a) in
      (rest.0, (f.0, rest.1))

  claim-Guarded :
      (o : ClaimOptions) (now : ℕ) (r : Repo)
      → now < expiry
      → All Guarded r.work
      → All Guarded (claim h o now r).1.work
        × All (λ c. K (claim_key h c) ≡ false) (claim h o now r).0
  unfolding claim
  claim-Guarded o now r early a =
      lease_all-Guarded now _ (chosen h o now r) r (chosen-Free o now r early a) a

  Meanwhile-Guarded :
      (r s : Repo) → Meanwhile h K expiry r s → All Guarded r.work → All Guarded s.work
  unfolding complete fail record_change remove
  Meanwhile-Guarded r _ nothing_yet a = a
  Meanwhile-Guarded r _ (claims {s} m o now early) a =
      (claim-Guarded o now s early (Meanwhile-Guarded r s m a)).0
  Meanwhile-Guarded r _ (completes {s} m c now) a =
      let before = Meanwhile-Guarded r s m a in
      elim (Option-cases (leased_work h c now s)) [
        | inl lost ↦ rw (complete, lost) before
        | inr (w, held) ↦ rw (complete, held) (All-filter Guarded _ s.work before)
      ]
  Meanwhile-Guarded r _ (fails {s} m c code now later other) a =
      let before = Meanwhile-Guarded r s m a in
      elim (Option-cases (leased_work h c now s)) [
        | inl lost ↦ rw (fail, lost) before
        | inr (w, held) ↦
            let key = get-key h (claim_key h c) s.work w (leased_work-get h c now s w held) in
            rw (fail, held)
              (put-All h Guarded (release code later w) s.work
                (Guarded-other (release code later w) (ap K key ∙ other)) before)
      ]
  Meanwhile-Guarded r _ (changes {s} m c now other) a =
      let before = Meanwhile-Guarded r s m a in
      elim (Option-cases (get h (change_key h c) s.work)) [
        | inl new ↦
            rw (record_change, new)
              (All-append Guarded s.work _ before (Guarded-other (changed c 1 now now) other, tt))
        | inr (w, found) ↦
            let v = changed c (w.generation + 1) now w.queued_at in
            rw (record_change, found) (put-All h Guarded v s.work (Guarded-other v other) before)
      ]

module _ (h : Host) where
  -- While the leases of a claim last, no other claim returns a work that it returned, whatever claims and
  -- completions there are in between, by whomever, as long as no failure and no change of a work that it
  -- returned is recorded.
  pub claim_exclusive :
      (o o' : ClaimOptions) (now now' : ℕ) (r s : Repo)
      → Meanwhile h
          (claimed h (claim h o now r).0)
          (now + (claim_bounds o).lease_duration_ms)
          (claim h o now r).1
          s
      → now' < now + (claim_bounds o).lease_duration_ms
      → All (λ c. claimed h (claim h o now r).0 (claim_key h c) ≡ false) (claim h o' now' s).0
  claim_exclusive o o' now now' r s m lasts =
      let K = claimed h (claim h o now r).0 in
      let expiry = now + (claim_bounds o).lease_duration_ms in
      let first =
        All-map (λ w l own. record { state = (l own).state; expires = (l own).expires }) _
          (claim-AllLeased h o now r) in
      (claim-Guarded h K expiry o' now' s lasts
        (Meanwhile-Guarded h K expiry (claim h o now r).1 s m first)).1
