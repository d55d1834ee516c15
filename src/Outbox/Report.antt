-- ===== src/Outbox/Report.antt =====
-- packages/db/src/asset-change-outbox.ts: what `getHealth` reports.
use forgetbase.Prelude.{
  ℕ, suc, ◌-◌, ◌≤◌, String, ◌≡◌, refl, ap, sym, subst, some_equal, ◌||◌, Bool, true, false, Option,
  none, some, List, [], ◌∷◌, ◌⊎◌, inl, inr, min, arith, All, All-map, any, leb, length, filter,
  nat_eq, Bool-cases, eq_iff,
}
use forgetbase.Outbox.{
  WorkState, pending, processing, failed, Work, Repo, get_health, wanted_is, is_pending,
  is_processing, is_failed, oldest,
}

-- The report is on every tenant, or on that of the work.
abbrev pub IsWanted : Option String → Work → Type 0
IsWanted tenant w = (tenant ≡ none) ⊎ (tenant ≡ some w.tenant_id)

wanted_is-IsWanted :
    (tenant : Option String) (w : Work) → wanted_is tenant w.tenant_id ≡ true → IsWanted tenant w
wanted_is-IsWanted none w h = inl refl
wanted_is-IsWanted (some t) w h = inr (ap some (sym ((eq_iff w.tenant_id t).0 h)))

IsWanted-wanted_is :
    (tenant : Option String) (w : Work)
    → wanted_is tenant w.tenant_id ≡ false
    → IsWanted tenant w
    → ⊥
IsWanted-wanted_is none w h k = cc
IsWanted-wanted_is (some t) w h (inl k) = cc
IsWanted-wanted_is (some t) w h (inr k) =
    let same_tenant : t ≡ w.tenant_id = some_equal k in
    let clash : wanted_is (some t) w.tenant_id ≡ true =
      (eq_iff w.tenant_id t).1 (sym same_tenant) in
    cc

-- Of the works, that many wanted ones are pending, processing and failed.
pub data Counted (tenant : Option String) : List Work → ℕ → ℕ → ℕ → Type 0 where
  no_work : Counted tenant [] 0 0 0
  unwanted :
      {ws : List Work} {p q f : ℕ} (w : Work)
      → (IsWanted tenant w → ⊥)
      → Counted tenant ws p q f
      → Counted tenant (w ∷ ws) p q f
  one_pending :
      {ws : List Work} {p q f : ℕ} (w : Work)
      → IsWanted tenant w
      → w.state ≡ pending
      → Counted tenant ws p q f
      → Counted tenant (w ∷ ws) (suc p) q f
  one_processing :
      {ws : List Work} {p q f : ℕ} (w : Work)
      → IsWanted tenant w
      → w.state ≡ processing
      → Counted tenant ws p q f
      → Counted tenant (w ∷ ws) p (suc q) f
  one_failed :
      {ws : List Work} {p q f : ℕ} (w : Work)
      → IsWanted tenant w
      → w.state ≡ failed
      → Counted tenant ws p q f
      → Counted tenant (w ∷ ws) p q (suc f)

-- `t` is the time of the work that has been queued first.
pub record IsOldest (t : ℕ) (ws : List Work) : Type 0 where
  pub first : All (λ w. t ≤ w.queued_at) ws
  pub reached : any (λ w. nat_eq w.queued_at t) ws ≡ true

module _ (tenant : Option String) where
  abbrev pub wanted : List Work → List Work
  wanted ws = filter (λ w. wanted_is tenant w.tenant_id) ws

  abbrev count : (WorkState → Bool) → List Work → ℕ
  count p ws = length (filter (λ w. p w.state) (wanted ws))

  by_state :
      (s : WorkState)
      → ((s ≡ pending) × (is_pending s ≡ true) × (is_processing s ≡ false) × (is_failed s ≡ false))
        ⊎ ((s ≡ processing)
            × (is_pending s ≡ false)
            × (is_processing s ≡ true)
            × (is_failed s ≡ false))
        ⊎ ((s ≡ failed) × (is_pending s ≡ false) × (is_processing s ≡ false) × (is_failed s ≡ true))
  by_state pending = inl (refl, refl, refl, refl)
  by_state processing = inr (inl (refl, refl, refl, refl))
  by_state failed = inr (inr (refl, refl, refl, refl))

  counts :
      (ws : List Work)
      → Counted tenant ws (count is_pending ws) (count is_processing ws) (count is_failed ws)
  counts [] = no_work
  counts (w ∷ ws) = elim (Bool-cases (wanted_is tenant w.tenant_id)) [
    | inr other ↦ rw other (unwanted w (IsWanted-wanted_is tenant w other) (counts ws))
    | inl own ↦
        let mine = wanted_is-IsWanted tenant w own in
        elim (by_state w.state) [
          | inl (s, a, b, c) ↦ rw (own, a, b, c) (one_pending w mine s (counts ws))
          | inr (inl (s, a, b, c)) ↦ rw (own, a, b, c) (one_processing w mine s (counts ws))
          | inr (inr (s, a, b, c)) ↦ rw (own, a, b, c) (one_failed w mine s (counts ws))
        ]
  ]

oldest_cases :
    (ws : List Work)
    → ((ws ≡ []) × (oldest ws ≡ none)) ⊎ ((t : ℕ) × (oldest ws ≡ some t) × IsOldest t ws)
oldest_cases [] = inl (refl, refl)
oldest_cases (w ∷ ws) = elim (oldest_cases ws) [
  | inl (bare, n) ↦ inr (
    w.queued_at,
    rw n refl,
    record {
      first = (omega arith, subst (All (λ v. w.queued_at ≤ v.queued_at)) (sym bare) tt);
      reached = ground arith;
    },
  )
  | inr (t, e, o) ↦ inr (
    min w.queued_at t,
    rw e refl,
    record {
      first = (omega arith, All-map (λ v h. omega (arith, h)) ws o.first);
      reached = reaches t o (Bool-cases (leb w.queued_at t));
    },
  )
]
  where
    reaches :
        (t : ℕ)
        → IsOldest t ws
        → (leb w.queued_at t ≡ true) ⊎ (leb w.queued_at t ≡ false)
        → any (λ v. nat_eq v.queued_at (min w.queued_at t)) (w ∷ ws) ≡ true
    reaches t o (inl before) =
        let same_time : min w.queued_at t ≡ w.queued_at = ground (arith, before) in
        subst (λ n. (nat_eq w.queued_at n || any (λ v. nat_eq v.queued_at n) ws) ≡ true)
          (sym same_time) (ground arith)
    reaches t o (inr later) =
        let same_time : min w.queued_at t ≡ t = ground (arith, later) in
        let found = o.reached in
        subst (λ n. (nat_eq w.queued_at n || any (λ v. nat_eq v.queued_at n) ws) ≡ true)
          (sym same_time) (ground (arith, found))

-- The report counts each wanted entry once, in its state. Its oldest time is that of the wanted entry that has
-- been queued first, in whatever state, and the age is the time since then; both are absent exactly where no entry is wanted.
pub get_health_exact :
    (tenant : Option String) (now : ℕ) (r : Repo)
    → Counted tenant r.work
        (get_health tenant now r).pending
        (get_health tenant now r).processing
        (get_health tenant now r).failed
      × (((wanted tenant r.work ≡ [])
            × ((get_health tenant now r).oldest_pending_at ≡ none)
            × ((get_health tenant now r).oldest_pending_age_ms ≡ none))
          ⊎ ((t : ℕ) × IsOldest t (wanted tenant r.work)
              × ((get_health tenant now r).oldest_pending_at ≡ some t)
              × ((get_health tenant now r).oldest_pending_age_ms ≡ some (now - t))))
unfolding get_health
get_health_exact tenant now r = (
  counts tenant r.work,
  elim (oldest_cases (wanted tenant r.work)) [
    | inl (bare, n) ↦ inl (bare, n, rw n refl)
    | inr (t, e, o) ↦ inr (t, o, e, rw e refl)
  ],
)
