-- ===== src/Actions/Final.antt =====
-- packages/db/src/action-execution.ts and apps/api/src/server.ts: a request that does not await a decision
-- stays as it is, as long as the handlers run one after the other.
use forgetbase.Prelude.{
  ap, sym, ◌∙◌, subst, ◌≡◌, refl, inl, inr, ℕ, ◌-◌, ◌<◌, String, true, false, ◌&&◌, Option, none,
  some, List, [], ◌∷◌, find, All, All-map, if◌then◌else◌, leb, ◌==◌, eq_iff, if-eq-some, some_equal,
  Bool-cases, Option-cases, arith,
}
use forgetbase.LocalSync.Canonical.{Json, Fields}
use forgetbase.Actions.Policies.{PolicyInput, Actor}
use forgetbase.Actions.Requests.{
  Request, Repository, ActionInput, Ruling, set_request, new_request, ruled, get_policy,
  upsert_policy, count_requests_since, get_request, decide_request,
}
use forgetbase.Actions.Handlers.{
  DecisionInput, Principal, Reply, is_awaiting, submit, replay_of, execute_action, decide_action,
  answer, is_approval_expired, expiry_ruling, approval_ruling, denial, hour_ms,
}

abbrev pub lookup_request : String → List Request → Option Request
lookup_request id = find (λ a. a.request_id == id)

-- Storing a request leaves those with another id alone.
lookup-set :
    (id : String) (b : Request) (l : List Request)
    → (b.request_id == id) ≡ false
    → lookup_request id (set_request b l) ≡ lookup_request id l
lookup-set id b [] h = rw h refl
lookup-set id b (a ∷ l) h = elim (Bool-cases (a.request_id == b.request_id)) [
  | inl same_id ↦
      let other_id : (a.request_id == id) ≡ false =
        rw ((eq_iff a.request_id b.request_id).0 same_id) h in
      rw (same_id, h, other_id) refl
  | inr differs ↦ elim (Bool-cases (a.request_id == id)) [
    | inl found ↦ rw (differs, found) refl
    | inr further ↦ rw (differs, further) (lookup-set id b l h)
  ]
]

All-lookup :
    (P : Request → Type 0) (id : String) (l : List Request) (a : Request)
    → All P l
    → lookup_request id l ≡ some a
    → P a × (a.request_id ≡ id)
All-lookup P id [] a h e = cc
All-lookup P id (b ∷ l) a h e = elim (Bool-cases (b.request_id == id)) [
  | inl found ↦
      let same_request : b ≡ a = some_equal (rw found at e) in
      (
        subst P same_request h.0,
        subst (λ x. x.request_id ≡ id) same_request ((eq_iff b.request_id id).0 found),
      )
  | inr further ↦ All-lookup P id l a h.1 (rw further at e)
]

All-set :
    (P : Request → Type 0) (b : Request) (l : List Request)
    → P b
    → All P l
    → All P (set_request b l)
All-set P b [] p h = (p, tt)
All-set P b (a ∷ l) p h = elim (Bool-cases (a.request_id == b.request_id)) [
  | inl same_id ↦ rw same_id (p, h.1)
  | inr differs ↦ rw differs (h.0, All-set P b l p h.1)
]

module _ (id_text : ℕ → String) (redact : ActionInput → Fields × Fields) (iso : ℕ → Json) where
  -- one request that changes the repository: of an action, of a decision, or of the policy
  pub data Step : Repository → Repository → Type 0 where
    requests_action :
        (p : Principal) (i : Option ActionInput) (now : ℕ) (r : Repository)
        → Step r (execute_action id_text redact p i now r).1
    decides :
        (p : Principal) (d : Option DecisionInput) (now : ℕ) (r : Repository)
        → Step r (decide_action iso p d now r).1
    sets_policy :
        (tenant : String) (i : PolicyInput) (actor : Actor) (now : ℕ) (r : Repository)
        → Step r (upsert_policy tenant i actor now r)

  pub data Steps : Repository → Repository → Type 0 where
    done : (r : Repository) → Steps r r
    after : (r s t : Repository) → Steps r s → Step s t → Steps r t

  -- The ids come from the counter.
  abbrev pub IsNumbered : Repository → Type 0
  IsNumbered r =
      All (λ a. (n : ℕ) × (n < r.next_request_id) × (a.request_id ≡ id_text n)) r.requests

  -- A request without a decision to come is kept.
  abbrev Keeps : Repository → Repository → Type 0
  Keeps r s =
      (id : String) (a : Request)
      → lookup_request id r.requests ≡ some a
      → is_awaiting a.status ≡ false
      → lookup_request id s.requests ≡ some a

  module _ (injective : (m n : ℕ) → id_text m ≡ id_text n → m ≡ n) where
    submit-Keeps :
        (p : Principal) (i : ActionInput) (now : ℕ) (r : Repository)
        → IsNumbered r
        → IsNumbered (submit id_text redact p i now r).1
          × Keeps r (submit id_text redact p i now r).1
    unfolding submit
    submit-Keeps p i now r h =
        elim (Bool-cases (
          leb (get_policy p.tenant r).max_requests_per_hour
            (count_requests_since p.tenant (now - hour_ms) r))) [
              | inl limited ↦ rw limited (h, λ id a e _. e)
              | inr free ↦
                  let b =
                    new_request (id_text r.next_request_id) p.tenant i (redact i)
                      (get_policy p.tenant r) p.actor now in
                  rw free (
                    All-set _ b r.requests (r.next_request_id, omega arith, refl)
                        (All-map (λ a (n, l, e). (n, omega (arith, l), e)) r.requests h),
                    λ id a e _. lookup-set id b r.requests (fresh id a e) ∙ e,
                  )
            ]
      where
        fresh :
            (id : String) (a : Request)
            → lookup_request id r.requests ≡ some a
            → (id_text r.next_request_id == id) ≡ false
        fresh id a e =
            let ((n, l, q), own) = All-lookup _ id r.requests a h e in
            elim (Bool-cases (id_text r.next_request_id == id)) [
              | inr differs ↦ differs
              | inl same_id ↦
                  let m =
                    injective r.next_request_id n
                      ((eq_iff (id_text r.next_request_id) id).0 same_id ∙ sym own ∙ q) in
                  absurd (omega (arith, l, m))
            ]

    execute-Keeps :
        (p : Principal) (input : Option ActionInput) (now : ℕ) (r : Repository)
        → IsNumbered r
        → IsNumbered (execute_action id_text redact p input now r).1
          × Keeps r (execute_action id_text redact p input now r).1
    unfolding execute_action
    execute-Keeps p none now r h = elim (Bool-cases p.may_execute) [
      | inl may ↦ rw may (h, λ id a e _. e)
      | inr may_not ↦ rw may_not (h, λ id a e _. e)
    ]
    execute-Keeps p (some i) now r h = elim (Bool-cases p.may_execute) [
      | inr may_not ↦ rw may_not (h, λ id a e _. e)
      | inl may ↦ elim (Option-cases (replay_of p i.key r)) [
        | inr (existing, f) ↦ rw (may, f) (h, λ id a e _. e)
        | inl new ↦ rw (may, new) (submit-Keeps p i now r h)
      ]
    ]

  get-lookup :
      (tenant id : String) (r : Repository) (a : Request)
      → get_request tenant id r ≡ some a
      → lookup_request id r.requests ≡ some a
  unfolding get_request
  get-lookup tenant id r a e = elim (Option-cases (lookup_request id r.requests)) [
    | inl absent ↦ absurd (ground (arith, absent, e))
    | inr (b, f) ↦ f ∙ ap some (if-eq-some (b.tenant_id == tenant) b (rw (get_request, f) at e)).1
  ]

  -- a decision on a request that awaits one
  ruling-Keeps :
      (tenant id : String) (d : Ruling) (actor : Actor) (now : ℕ) (r : Repository) (a : Request)
      → IsNumbered r
      → get_request tenant id r ≡ some a
      → is_awaiting a.status ≡ true
      → IsNumbered (decide_request tenant id d actor now r).1
        × Keeps r (decide_request tenant id d actor now r).1
  unfolding decide_request
  ruling-Keeps tenant id d actor now r a h e w =
      let stored = get-lookup tenant id r a e in
      let (numbered, own) = All-lookup _ id r.requests a h stored in
      rw (decide_request, e)
        (
          All-set _ (ruled a d actor now) r.requests numbered h,
          λ id' b f settled. elim (Bool-cases (a.request_id == id')) [
            | inr other_id ↦ lookup-set id' (ruled a d actor now) r.requests other_id ∙ f
            | inl same_id ↦
                let same_request : b ≡ a = some_equal (
                  sym f
                  ∙ ap (λ x. lookup_request x r.requests)
                      (sym ((eq_iff a.request_id id').0 same_id) ∙ own)
                  ∙ stored) in
                let awaits : is_awaiting b.status ≡ true = rw same_request w in
                absurd (ground (arith, awaits, settled))
          ],
        )

  answer-state :
      (reply : Request → Reply) (x : Option Request × Repository) → (answer reply x).1 ≡ x.1
  answer-state reply (none, r) = refl
  answer-state reply (some a, r) = refl

  decide-Keeps :
      (p : Principal) (input : Option DecisionInput) (now : ℕ) (r : Repository)
      → IsNumbered r
      → IsNumbered (decide_action iso p input now r).1 × Keeps r (decide_action iso p input now r).1
  unfolding decide_action
  decide-Keeps p none now r h = elim (Bool-cases p.is_admin) [
    | inl may ↦ rw may (h, λ id a e _. e)
    | inr may_not ↦ rw may_not (h, λ id a e _. e)
  ]
  decide-Keeps p (some d) now r h = elim (Bool-cases p.is_admin) [
    | inr may_not ↦ rw may_not (h, λ id a e _. e)
    | inl may ↦ elim (Option-cases (get_request p.tenant d.decided_id r)) [
      | inl absent ↦ rw (may, absent) (h, λ id a e _. e)
      | inr (a, e) ↦ elim (Bool-cases (is_awaiting a.status)) [
        | inr settled ↦ rw (may, e, settled) (h, λ id a e _. e)
        | inl awaits ↦ elim (Bool-cases (d.approves && is_approval_expired a now)) [
          | inl late ↦
              rw (may, e, awaits, late, answer-state)
                (ruling-Keeps p.tenant d.decided_id (expiry_ruling iso a d) p.actor now r a h e
                  awaits)
          | inr timely ↦
              rw (may, e, awaits, timely, answer-state)
                (ruling-Keeps p.tenant d.decided_id
                  (if d.approves then approval_ruling a d else denial d) p.actor now r a h e awaits)
        ]
      ]
    ]
  ]

  policy-Keeps :
      (tenant : String) (i : PolicyInput) (actor : Actor) (now : ℕ) (r : Repository)
      → IsNumbered r
      → IsNumbered (upsert_policy tenant i actor now r)
        × Keeps r (upsert_policy tenant i actor now r)
  unfolding upsert_policy
  policy-Keeps tenant i actor now r h = (h, λ id a e _. e)

  -- what each step does
  Step-Keeps :
      (injective : (m n : ℕ) → id_text m ≡ id_text n → m ≡ n) (r s : Repository)
      → Step r s
      → IsNumbered r
      → IsNumbered s × Keeps r s
  Step-Keeps injective _ _ (requests_action p i now r) h = execute-Keeps injective p i now r h
  Step-Keeps injective _ _ (decides p d now r) h = decide-Keeps p d now r h
  Step-Keeps injective _ _ (sets_policy tenant i actor now r) h =
      policy-Keeps tenant i actor now r h

  Steps-Keeps :
      (injective : (m n : ℕ) → id_text m ≡ id_text n → m ≡ n) (r s : Repository)
      → Steps r s
      → IsNumbered r
      → IsNumbered s × Keeps r s
  Steps-Keeps injective _ _ (done r) h = (h, λ id a e _. e)
  Steps-Keeps injective _ _ (after r s t before next) h =
      let (hs, first) = Steps-Keeps injective r s before h in
      let (ht, second) = Step-Keeps injective s t next hs in
      (ht, λ id a e settled. second id a (first id a e settled) settled)

  -- When the handlers run one after the other, from a repository without requests on, a request that
  -- does not await a decision is final: whatever is requested, decided or set later, the repository still has it under
  -- its id, unchanged. The ids that are made from different numbers are to be different.
  pub settled_stays :
      (injective : (m n : ℕ) → id_text m ≡ id_text n → m ≡ n) (start r s : Repository) (id : String)
      (a : Request)
      → start.requests ≡ []
      → Steps start r
      → Steps r s
      → lookup_request id r.requests ≡ some a
      → is_awaiting a.status ≡ false
      → lookup_request id s.requests ≡ some a
  settled_stays injective start r s id a bare before later e settled =
      let h : IsNumbered start =
        subst
          (λ l.
            All
              (λ (a : Request). (n : ℕ) × (n < start.next_request_id) × (a.request_id ≡ id_text n))
              l)
          (sym bare) tt in
      let (numbered, _) = Steps-Keeps injective start r before h in
      (Steps-Keeps injective r s later numbered).1 id a e settled
