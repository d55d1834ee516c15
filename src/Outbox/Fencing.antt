-- ===== src/Outbox/Fencing.antt =====
-- A worker that has lost its lease can change nothing.
use forgetbase.Prelude.{
  ℕ, ◌+◌, ◌<◌, String, ◌≡◌, refl, ap, true, false, Option, none, some, List, [], ◌∷◌, ◌++◌, ◌⊎◌,
  inl, inr, arith, All, eq_iff, if◌then◌else◌, opt_eq, Bool-cases, Option-cases,
}
use forgetbase.Outbox.{
  processing, Work, Claim, ClaimOptions, Repo, Host, ErrorCode, Change, work_key, claim_key,
  change_key, put, get, claim, insert_work, sort_work, leased_work, holds_lease, complete, fail,
  changed, record_change,
}
use forgetbase.Outbox.Leases.{claimed, claim-AllLeased}

module _ (h : Host) (P : Work → Type 0) where
  insert_work-All : (w : Work) (ws : List Work) → P w → All P ws → All P (insert_work h w ws)
  unfolding insert_work
  insert_work-All w [] p a = (p, tt)
  insert_work-All w (v ∷ vs) p a = ground (arith, insert_work-All w vs p a.1)

  pub sort_work-All : (ws : List Work) → All P ws → All P (sort_work h ws)
  unfolding sort_work
  sort_work-All [] a = tt
  sort_work-All (w ∷ ws) a = insert_work-All w (sort_work h ws) a.0 (sort_work-All ws a.1)

  pub get-All :
      (key : String) (ws : List Work) (w : Work)
      → get h key ws ≡ some w
      → All P ws
      → P w × (work_key h w ≡ key)
  unfolding get
  get-All key [] w e a = cc
  get-All key (v ∷ vs) w e a = ground (arith, get-All key vs w, eq_iff (work_key h v) key)

module _ (h : Host) where
  opt_eq-some : (o : Option String) (s : String) → opt_eq o (some s) ≡ true → o ≡ some s
  opt_eq-some none s e = cc
  opt_eq-some (some a) s e = ap some ((eq_iff a s).0 e)

  holds_lease-parts :
      (t : ℕ) (c : Claim) (w : Work)
      → holds_lease t c w ≡ true
      → (w.state ≡ processing) × (w.lease_token ≡ some c.lease_token)
  holds_lease-parts t c w b = (ground arith, opt_eq-some w.lease_token c.lease_token (ground arith))

  -- A claim whose lease is gone: no entry at its key can be completed or failed with it.
  abbrev pub IsFenced : Claim → Repo → Type 0
  IsFenced c r =
      (t : ℕ)
      → (complete h c t r ≡ (false, r))
        × ((code : ErrorCode) (later : ℕ) → fail h c code t later r ≡ (false, r))

  IsFenced-of_none : (c : Claim) (r : Repo) → ((t : ℕ) → leased_work h c t r ≡ none) → IsFenced c r
  unfolding complete fail
  IsFenced-of_none c r e t = (rw (e t, complete), λ code later. rw (e t, fail))

  leased_work-eq-none :
      (P : Work → Type 0) (c : Claim) (t : ℕ) (r : Repo)
      → All P r.work
      → ((w : Work)
          → P w
          → work_key h w ≡ claim_key h c
          → w.lease_token ≡ some c.lease_token
          → w.state ≡ processing
          → ⊥)
      → leased_work h c t r ≡ none
  unfolding leased_work
  leased_work-eq-none P c t r a no_lease = elim (Option-cases (get h (claim_key h c) r.work)) [
    | inl e ↦ rw (e, leased_work)
    | inr (w, e) ↦
        let (p, key) = get-All h P (claim_key h c) r.work w e a in
        rw (e, leased_work) (refuse w p key (Bool-cases (holds_lease t c w)))
  ]
    where
      refuse :
          (w : Work)
          → P w
          → work_key h w ≡ claim_key h c
          → (holds_lease t c w ≡ true) ⊎ (holds_lease t c w ≡ false)
          → (if holds_lease t c w then some w else none) ≡ none
      refuse w p key (inl b) =
          absurd (let (state, same) = holds_lease-parts t c w b in no_lease w p key same state)
      refuse w p key (inr b) = rw b

  -- When a work is claimed anew, whoever claimed it before can no longer complete or fail it, at
  -- any time, if the host never draws the same token twice.
  pub claim_fences :
      ((i j : ℕ) → h.random_uuid i ≡ h.random_uuid j → i ≡ j)
      → (c : Claim) (serial : ℕ) (o : ClaimOptions) (now : ℕ) (r : Repo)
      → c.lease_token ≡ h.random_uuid serial
      → serial < r.uuids
      → claimed h (claim h o now r).0 (claim_key h c) ≡ true
      → IsFenced c (claim h o now r).1
  claim_fences unique c serial o now r drawn old again = IsFenced-of_none c (claim h o now r).1 λ t.
      leased_work-eq-none _ c t _ (claim-AllLeased h o now r) λ w l key token state.
        let mine = l (rw key again) in
        let same : h.random_uuid mine.serial ≡ h.random_uuid serial =
          cc (mine.token, token, drawn) in
        let fresh = mine.fresh in let equal = unique mine.serial serial same in omega arith

  get-append :
      (key : String) (ws : List Work) (v : Work)
      → get h key ws ≡ none
      → work_key h v ≡ key
      → get h key (ws ++ v ∷ []) ≡ some v
  unfolding get
  get-append key [] v e k = ground (arith, eq_iff (work_key h v) key)
  get-append key (w ∷ ws) v e k = ground (arith, get-append key ws v)

  pub get-put :
      (key : String) (ws : List Work) (u v : Work)
      → get h key ws ≡ some u
      → work_key h v ≡ key
      → get h key (put h v ws) ≡ some v
  unfolding get put
  get-put key [] u v e k = cc
  get-put key (w ∷ ws) u v e k = ground (
    arith,
    get-put key ws u v,
    eq_iff (work_key h w) key,
    eq_iff (work_key h w) (work_key h v),
    eq_iff (work_key h v) key,
  )

  -- what `recordChange` leaves at the key: the same place in the queue, a new generation, no lease
  abbrev generation_of : Option Work → ℕ
  generation_of none = 0
  generation_of (some w) = w.generation

  abbrev queued_of : ℕ → Option Work → ℕ
  queued_of now none = now
  queued_of now (some w) = w.queued_at

  pub get-record_change :
      (c : Change) (now : ℕ) (r : Repo)
      → get h (change_key h c) (record_change h c now r).work
        ≡ some (
            changed c
              (generation_of (get h (change_key h c) r.work) + 1)
              now
              (queued_of now (get h (change_key h c) r.work)))
  unfolding record_change get
  get-record_change c now r = elim (Option-cases (get h (change_key h c) r.work)) [
    | inl e ↦ rw (e, record_change) (get-append (change_key h c) r.work _ e refl)
    | inr (w, e) ↦ rw (e, record_change) (get-put (change_key h c) r.work w _ e refl)
  ]

  -- A change that is recorded while a worker holds the work makes that worker's `complete` and
  -- `fail` return false and change nothing, so the new change stays queued.
  pub change_fences :
      (ch : Change) (now : ℕ) (c : Claim) (r : Repo)
      → claim_key h c ≡ change_key h ch
      → IsFenced c (record_change h ch now r)
  unfolding leased_work
  change_fences ch now c r key =
      IsFenced-of_none c (record_change h ch now r)
        λ t. rw (key, leased_work) (rw get-record_change refl)
