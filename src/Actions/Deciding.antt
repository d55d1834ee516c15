-- ===== src/Actions/Deciding.antt =====
-- apps/api/src/server.ts: what a decision makes of a request.
use forgetbase.Prelude.{
  ap, ◌∙◌, subst, ◌≡◌, refl, ◌⊎◌, inl, inr, ℕ, String, true, false, ◌&&◌, some, List, [], ◌∷◌,
  if◌then◌else◌, some_equal, Bool-cases, Option-cases, find, ◌==◌, eq_iff, eq_refl, if-eq-some,
  arith,
}
use forgetbase.LocalSync.Canonical.{Json}
use forgetbase.Actions.Policies.{Actor, approved, denied, executed, is_task}
use forgetbase.Actions.Requests.{
  Request, Repository, Ruling, ruled, get_request, decide_request, set_request,
}
use forgetbase.Actions.Handlers.{
  DecisionInput, Principal, Reply, is_awaiting, decide_action, is_approval_expired, expiry_ruling,
  approval_ruling, denial, access_denied, invalid_input, not_found, rate_limited, not_awaiting,
  replayed, created, decided, too_late,
}

get_request-eq :
    (tenant id : String) (r : Repository) (a : Request)
    → get_request tenant id r ≡ some a
    → (find (λ x. x.request_id == id) r.requests ≡ some a) × ((a.tenant_id == tenant) ≡ true)
unfolding get_request
get_request-eq tenant id r a e = elim (Option-cases (find (λ x. x.request_id == id) r.requests)) [
  | inl absent ↦ absurd (ground (arith, absent, e))
  | inr (b, f) ↦
      let (own, same_request) = if-eq-some (b.tenant_id == tenant) b (rw (get_request, f) at e) in
      (f ∙ ap some same_request, subst (λ x. (x.tenant_id == tenant) ≡ true) same_request own)
]

request_id-find :
    (id : String) (l : List Request) (a : Request)
    → find (λ x. x.request_id == id) l ≡ some a
    → a.request_id ≡ id
request_id-find id [] a e = cc
request_id-find id (b ∷ l) a e = elim (Bool-cases (b.request_id == id)) [
  | inl here ↦
      subst (λ x. x.request_id ≡ id) (some_equal (rw here at e)) ((eq_iff b.request_id id).0 here)
  | inr further ↦ request_id-find id l a (rw further at e)
]

-- A request that is stored is found under its id.
find-set_request :
    (id : String) (b : Request) (l : List Request)
    → b.request_id ≡ id
    → find (λ x. x.request_id == id) (set_request b l) ≡ some b
find-set_request id b [] e = rw (e, eq_refl id) refl
find-set_request id b (c ∷ l) e = elim (Bool-cases (c.request_id == b.request_id)) [
  | inl same_id ↦ rw (same_id, e, eq_refl id) refl
  | inr differs ↦
      let other : (c.request_id == id) ≡ false = rw (← e) differs in
      rw (differs, other) (find-set_request id b l e)
]

-- A denial makes a request denied, and an approval before the deadline executed or approved.
abbrev pub Outcome : DecisionInput → ℕ → Request → Request → Type 0
Outcome d now a b =
    ((d.approves ≡ false) × (b.status ≡ denied))
    ⊎ ((d.approves ≡ true)
        × (is_approval_expired a now ≡ false)
        × (is_task a.action_type ≡ true)
        × (b.status ≡ executed))
    ⊎ ((d.approves ≡ true)
        × (is_approval_expired a now ≡ false)
        × (is_task a.action_type ≡ false)
        × (b.status ≡ approved))

-- What a decision makes of the request `a`, which awaits it: the request `b`, in the repository `s`.
pub record IsDecided (p : Principal) (d : DecisionInput) (now : ℕ) (r s : Repository)
    (a b : Request) : Type 0 where
  pub by_admin : p.is_admin ≡ true
  pub found : get_request p.tenant d.decided_id r ≡ some a
  pub awaited : is_awaiting a.status ≡ true
  pub outcome : Outcome d now a b
  pub decider : (b.decided_by ≡ p.actor) × (b.decided_at ≡ some now)
  pub stored : get_request p.tenant d.decided_id s ≡ some b
  pub alone : s ≡ record r { requests = set_request b r.requests }

module _ (iso : ℕ → Json) where
  decide_request_eq :
      (tenant id : String) (d : Ruling) (actor : Actor) (now : ℕ) (r : Repository) (a : Request)
      → get_request tenant id r ≡ some a
      → decide_request tenant id d actor now r ≡ (
        some (ruled a d actor now),
        record r { requests = set_request (ruled a d actor now) r.requests },
      )
  unfolding decide_request
  decide_request_eq tenant id d actor now r a e = rw (decide_request, e) refl

  ruled-get_request :
      (tenant id : String) (d : Ruling) (actor : Actor) (now : ℕ) (r : Repository) (a : Request)
      → get_request tenant id r ≡ some a
      → get_request tenant id (record r { requests = set_request (ruled a d actor now) r.requests })
        ≡ some (ruled a d actor now)
  unfolding get_request
  ruled-get_request tenant id d actor now r a e =
      let (found, own) = get_request-eq tenant id r a e in
      let same_id : (ruled a d actor now).request_id ≡ id = request_id-find id r.requests a found in
      rw (get_request, find-set_request id (ruled a d actor now) r.requests same_id, own) refl

  -- A decision is made only by an administrator, on a request of the same tenant that awaits it: a denial makes it
  -- denied, and an approval, only before the deadline, executed for a task record and approved for any
  -- other type. The repository then has the decided request, which names who has decided it and when, under
  -- its id, and is otherwise as before.
  pub decide_action-IsDecided :
      (p : Principal) (d : DecisionInput) (now : ℕ) (r : Repository) (b : Request) (s : Repository)
      → decide_action iso p (some d) now r ≡ (decided b, s)
      → (a : Request) × IsDecided p d now r s a b
  unfolding decide_action
  decide_action-IsDecided p d now r b s h = elim (Bool-cases p.is_admin) [
    | inr may_not ↦
        absurd (not_decided access_denied tt (ap (λ x. x.0) (rw (decide_action, may_not) at h)))
    | inl may ↦ elim (Option-cases (get_request p.tenant d.decided_id r)) [
      | inl absent ↦
          absurd (not_decided not_found tt (ap (λ x. x.0) (rw (decide_action, may, absent) at h)))
      | inr (a, e) ↦ elim (Bool-cases (is_awaiting a.status)) [
        | inr settled ↦ absurd (
            not_decided (not_awaiting a.status) tt
              (ap (λ x. x.0) (rw (decide_action, may, e, settled) at h)))
        | inl awaits ↦ elim (Bool-cases (d.approves && is_approval_expired a now)) [
          | inl late ↦
              let written =
                decide_request_eq p.tenant d.decided_id (expiry_ruling iso a d) p.actor now r a e in
              absurd (
                not_decided (too_late (ruled a (expiry_ruling iso a d) p.actor now)) tt
                  (ap (λ x. x.0) (rw (decide_action, may, e, awaits, late, written) at h)))
          | inr timely ↦
              let d' = if d.approves then approval_ruling a d else denial d in
              let written = decide_request_eq p.tenant d.decided_id d' p.actor now r a e in
              let result = rw (decide_action, may, e, awaits, timely, written) at h in
              let same_request = decided_equal (ap (λ x. x.0) result) in
              (
                a,
                rw (← same_request, ← ap (λ x. x.1) result)
                    (record {
                      by_admin = may;
                      found = e;
                      awaited = awaits;
                      outcome = outcomes a timely;
                      decider = (refl, refl);
                      stored = ruled-get_request p.tenant d.decided_id d' p.actor now r a e;
                      alone = refl;
                    }),
              )
        ]
      ]
    ]
  ]
    where
      -- an answer that is no decision
      IsOther : Reply → Type 0
      IsOther (decided _) = ⊥
      IsOther _ = Unit

      not_decided : (x : Reply) → IsOther x → x ≡ decided b → ⊥
      not_decided x o e = subst IsOther e o

      decided_equal : {c : Request} → decided c ≡ decided b → c ≡ b
      decided_equal {c} h =
          ap
            (λ x. elim x [
              | access_denied ↦ c
              | invalid_input ↦ c
              | not_found ↦ c
              | rate_limited _ ↦ c
              | not_awaiting _ ↦ c
              | replayed _ ↦ c
              | created _ ↦ c
              | decided y ↦ y
              | too_late _ ↦ c
            ])
            h

      outcomes :
          (a : Request)
          → (d.approves && is_approval_expired a now) ≡ false
          → Outcome d now a
              (ruled a (if d.approves then approval_ruling a d else denial d) p.actor now)
      outcomes a timely = elim (Bool-cases d.approves) [
        | inr denies ↦ rw denies (inl (refl, refl))
        | inl approves ↦
            let in_time : is_approval_expired a now ≡ false = rw approves at timely in
            elim (Bool-cases (is_task a.action_type)) [
              | inl task ↦ rw (approves, task) (inr (inl (refl, in_time, refl, refl)))
              | inr deferred ↦ rw (approves, deferred) (inr (inr (refl, in_time, refl, refl)))
            ]
      ]
