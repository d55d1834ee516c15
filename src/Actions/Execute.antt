-- ===== src/Actions/Execute.antt =====
-- apps/api/src/server.ts: when an action is executed, and what a repeated request gives.
use forgetbase.Prelude.{
  ap, sym, ◌∙◌, ◌≡◌, ◌≢◌, suc, refl, ◌⊎◌, inl, inr, ℕ, ◌-◌, ◌<◌, String, Bool, true, false, ◌||◌,
  Option, none, some, List, [], ◌∷◌, find, leb, is_filled, ◌==◌, eq_refl, Bool-cases, Option-cases,
  arith,
}
use forgetbase.LocalSync.Canonical.{Fields}
use forgetbase.Actions.Policies.{
  Policy, ActionStatus, ActionType, create_task_record, http_openapi, mcp_tool, git_repo,
  document_connector, local_command, blocked, dry_run, approval_required, executed, is_task,
  evaluate, value_or, has_type,
}
use forgetbase.Actions.Requests.{
  Request, Repository, ActionInput, set_request, new_request, get_policy, count_requests_since,
  is_replay, request_by_idempotency_key, is_same_actor,
}
use forgetbase.Actions.Handlers.{
  Principal, Reply, submit, replay_of, execute_action, hour_ms, access_denied, invalid_input,
  not_found, rate_limited, not_awaiting, replayed, created, decided, too_late,
}

-- A policy under which actions of a type may be requested.
pub record IsOpen (policy : Policy) (t : ActionType) : Type 0 where
  pub alive : policy.kill_switch ≡ false
  pub enabled : policy.enabled ≡ true
  pub allowed : has_type t policy.allowed_action_types ≡ true

-- The status that a policy gives to a new request of a type, which may ask for a dry run.
pub data Judged (policy : Policy) (t : ActionType) (wants_dry_run : Option Bool)
    (status : ActionStatus) : Type 0 where
  closed :
      (policy.kill_switch ≡ true)
        ⊎ (policy.enabled ≡ false)
        ⊎ (has_type t policy.allowed_action_types ≡ false)
      → status ≡ blocked
      → Judged policy t wants_dry_run status
  dry :
      IsOpen policy t
      → value_or wants_dry_run policy.dry_run_default ≡ true
      → status ≡ dry_run
      → Judged policy t wants_dry_run status
  waits :
      IsOpen policy t
      → value_or wants_dry_run policy.dry_run_default ≡ false
      → policy.require_approval ≡ true
      → status ≡ approval_required
      → Judged policy t wants_dry_run status
  runs :
      IsOpen policy t
      → value_or wants_dry_run policy.dry_run_default ≡ false
      → policy.require_approval ≡ false
      → t ≡ create_task_record
      → status ≡ executed
      → Judged policy t wants_dry_run status
  unavailable :
      IsOpen policy t
      → value_or wants_dry_run policy.dry_run_default ≡ false
      → policy.require_approval ≡ false
      → t ≢ create_task_record
      → status ≡ blocked
      → Judged policy t wants_dry_run status

is_task-eq : (t : ActionType) → is_task t ≡ true → t ≡ create_task_record
is_task-eq create_task_record h = refl
is_task-eq http_openapi h = cc
is_task-eq mcp_tool h = cc
is_task-eq git_repo h = cc
is_task-eq document_connector h = cc
is_task-eq local_command h = cc

is_task-ne : (t : ActionType) → is_task t ≡ false → t ≢ create_task_record
is_task-ne t h e = let clash : true ≡ false = sym (ap is_task e) ∙ h in cc

evaluate-Judged :
    (policy : Policy) (t : ActionType) (w : Option Bool)
    → Judged policy t w (evaluate policy t w).outcome
unfolding evaluate
evaluate-Judged policy t w = elim (Bool-cases policy.kill_switch) [
  | inl e1 ↦ closed (inl e1) (rw (evaluate, e1) refl)
  | inr e1 ↦ elim (Bool-cases policy.enabled) [
    | inr e2 ↦ closed (inr (inl e2)) (rw (evaluate, e1, e2) refl)
    | inl e2 ↦ elim (Bool-cases (has_type t policy.allowed_action_types)) [
      | inr e3 ↦ closed (inr (inr e3)) (rw (evaluate, e1, e2, e3) refl)
      | inl e3 ↦
          let open_policy : IsOpen policy t = record { alive = e1; enabled = e2; allowed = e3 } in
          elim (Bool-cases (value_or w policy.dry_run_default)) [
            | inl e4 ↦ dry open_policy e4 (rw (evaluate, e1, e2, e3, e4) refl)
            | inr e4 ↦ elim (Bool-cases policy.require_approval) [
              | inl e5 ↦ waits open_policy e4 e5 (rw (evaluate, e1, e2, e3, e4, e5) refl)
              | inr e5 ↦ elim (Bool-cases (is_task t)) [
                | inr e6 ↦
                    unavailable open_policy e4 e5 (is_task-ne t e6)
                      (rw (evaluate, e1, e2, e3, e4, e5, e6) refl)
                | inl e6 ↦
                    runs open_policy e4 e5 (is_task-eq t e6)
                      (rw (evaluate, e1, e2, e3, e4, e5, e6) refl)
              ]
            ]
          ]
    ]
  ]
]

abbrev pub is_created : Reply → Bool
is_created (created _) = true
is_created _ = false

module _ (id_text : ℕ → String) (redact : ActionInput → Fields × Fields) where
  -- what is known of a request that is stored
  pub record IsCreated (p : Principal) (i : ActionInput) (now : ℕ) (r : Repository) (a : Request)
      (s : Repository) : Type 0 where
    pub may_execute : p.may_execute ≡ true
    pub no_replay : replay_of p i.key r ≡ none
    pub below_limit :
        count_requests_since p.tenant (now - hour_ms) r
        < (get_policy p.tenant r).max_requests_per_hour
    pub request_is :
        a
        ≡ new_request
            (id_text r.next_request_id)
            p.tenant
            i
            (redact i)
            (get_policy p.tenant r)
            p.actor
            now
    pub stored : s.requests ≡ set_request a r.requests

  submit-IsCreated :
      (p : Principal) (i : ActionInput) (now : ℕ) (r : Repository) (a : Request) (s : Repository)
      → p.may_execute ≡ true
      → replay_of p i.key r ≡ none
      → submit id_text redact p i now r ≡ (created a, s)
      → IsCreated p i now r a s
  unfolding submit
  submit-IsCreated p i now r a s m n h =
      elim (Bool-cases (
        leb (get_policy p.tenant r).max_requests_per_hour
          (count_requests_since p.tenant (now - hour_ms) r))) [
            | inl limited ↦ absurd (no_creation (ap (λ x. x.0) (rw (submit, limited) at h)))
            | inr free ↦
                let e = rw (submit, free) at h in
                let same_request = created_equal (ap (λ x. x.0) e) in
                record {
                  may_execute = m;
                  no_replay = n;
                  below_limit = ground (arith, free);
                  request_is = sym same_request;
                  stored =
                      sym (ap (λ x. x.1.requests) e)
                      ∙ ap (λ b. set_request b r.requests) same_request;
                }
          ]
    where
      no_creation : {k : ℕ} → rate_limited k ≡ created a → ⊥
      no_creation h = cc

      created_equal : {b : Request} → created b ≡ created a → b ≡ a
      created_equal {b} h =
          ap
            (λ x. elim x [
              | access_denied ↦ b
              | invalid_input ↦ b
              | not_found ↦ b
              | rate_limited _ ↦ b
              | not_awaiting _ ↦ b
              | replayed _ ↦ b
              | created c ↦ c
              | decided _ ↦ b
              | too_late _ ↦ b
            ])
            h

  execute-IsCreated :
      (p : Principal) (i : ActionInput) (now : ℕ) (r : Repository) (a : Request) (s : Repository)
      → execute_action id_text redact p (some i) now r ≡ (created a, s)
      → IsCreated p i now r a s
  unfolding execute_action
  execute-IsCreated p i now r a s h = elim (Bool-cases p.may_execute) [
    | inr may_not ↦ absurd (no_access (ap (λ x. x.0) (rw (execute_action, may_not) at h)))
    | inl may ↦ elim (Option-cases (replay_of p i.key r)) [
      | inr (existing, f) ↦ absurd (no_replay (ap (λ x. x.0) (rw (execute_action, may, f) at h)))
      | inl new ↦ submit-IsCreated p i now r a s may new (rw (execute_action, may, new) at h)
    ]
  ]
    where
      no_access : access_denied ≡ created a → ⊥
      no_access h = cc

      no_replay : {b : Request} → replayed b ≡ created a → ⊥
      no_replay h = cc

  -- what a request for an action stores, and for whom
  pub record IsStored (p : Principal) (input : Option ActionInput) (now : ℕ) (r : Repository)
      (result : Reply × Repository) : Type 0 where
    pub may_execute : p.may_execute ≡ true
    pub wanted : ActionInput
    pub input_is : input ≡ some wanted
    pub below_limit :
        count_requests_since p.tenant (now - hour_ms) r
        < (get_policy p.tenant r).max_requests_per_hour
    pub request : Request
    pub answered : result.0 ≡ created request
    pub tenant : request.tenant_id ≡ p.tenant
    pub requester : request.requested_by ≡ p.actor
    pub type_is : request.action_type ≡ wanted.wanted_type
    pub judged :
        Judged (get_policy p.tenant r) wanted.wanted_type wanted.wants_dry_run request.status
    pub stored : result.1 ≡ record r {
      requests = set_request request r.requests;
      next_request_id = suc r.next_request_id;
    }

  -- A request for an action leaves the repository as it is, without the answer that it was stored, or it is stored: only for a
  -- caller who may execute actions, while the tenant has fewer requests in the last hour than its policy
  -- allows, in the caller's tenant and name, and with the status that the tenant's policy gives it. That is
  -- blocked under the kill switch, a policy that is not enabled or a type that is not allowed; otherwise that of
  -- a dry run where one is wanted, then that of a request that awaits approval where the policy asks for it, then
  -- executed for a task record and blocked for any other type.
  pub execute_action-IsStored :
      (p : Principal) (input : Option ActionInput) (now : ℕ) (r : Repository)
      → (((execute_action id_text redact p input now r).1 ≡ r)
          × (is_created (execute_action id_text redact p input now r).0 ≡ false))
        ⊎ IsStored p input now r (execute_action id_text redact p input now r)
  unfolding execute_action submit
  execute_action-IsStored p none now r = elim (Bool-cases p.may_execute) [
    | inr may_not ↦ rw may_not (inl (refl, refl))
    | inl may ↦ rw may (inl (refl, refl))
  ]
  execute_action-IsStored p (some i) now r = elim (Bool-cases p.may_execute) [
    | inr may_not ↦ rw may_not (inl (refl, refl))
    | inl may ↦ elim (Option-cases (replay_of p i.key r)) [
      | inr (existing, f) ↦ inl (rw (execute_action, may, f) refl, rw (execute_action, may, f) refl)
      | inl new ↦
          elim (Bool-cases (
            leb (get_policy p.tenant r).max_requests_per_hour
              (count_requests_since p.tenant (now - hour_ms) r))) [
                | inl limited ↦ inl (
                  rw (execute_action, may, new, submit, limited) refl,
                  rw (execute_action, may, new, submit, limited) refl,
                )
                | inr free ↦ inr (record {
                  may_execute = may;
                  wanted = i;
                  input_is = refl;
                  below_limit = ground (arith, free);
                  request =
                      new_request (id_text r.next_request_id) p.tenant i (redact i)
                        (get_policy p.tenant r) p.actor now;
                  answered = rw (execute_action, may, new, submit, free) refl;
                  tenant = refl;
                  requester = refl;
                  type_is = refl;
                  judged = evaluate-Judged (get_policy p.tenant r) i.wanted_type i.wants_dry_run;
                  stored = rw (execute_action, may, new, submit, free) refl;
                })
              ]
    ]
  ]

  find-set :
      (q : Request → Bool) (a : Request) (l : List Request)
      → find q l ≡ none
      → q a ≡ true
      → find q (set_request a l) ≡ some a
  find-set q a [] h t = rw t refl
  find-set q a (b ∷ l) h t = elim (Bool-cases (q b)) [
    | inl hit ↦ absurd (ground (arith, hit, h))
    | inr miss ↦ elim (Bool-cases (b.request_id == a.request_id)) [
      | inl same_id ↦ rw (same_id, t) refl
      | inr differs ↦ rw (differs, miss) (find-set q a l (rw miss at h) t)
    ]
  ]

  -- The caller who has stored a request under a key, as a user or as a service account, and uses the key
  -- again gets the same request back, whatever else the second request says; nothing is stored.
  pub execute_action-replay :
      (p : Principal) (i j : ActionInput) (now later : ℕ) (r : Repository) (a : Request)
      (s : Repository) (key : String)
      → execute_action id_text redact p (some i) now r ≡ (created a, s)
      → i.key ≡ some key
      → j.key ≡ some key
      → is_filled key ≡ true
      → (is_same_actor p.actor.service_account_id p.actor.service_account_id
          || is_same_actor p.actor.user_id p.actor.user_id)
        ≡ true
      → execute_action id_text redact p (some j) later s ≡ (replayed a, s)
  unfolding execute_action request_by_idempotency_key
  execute_action-replay p i j now later r a s key h ki kj filled known =
      let c = execute-IsCreated p i now r a s h in
      let none_before : find (is_replay p.tenant key p.actor) r.requests ≡ none =
        rw (ki, filled) at c.no_replay in
      let own : is_replay p.tenant key p.actor a ≡ true =
        rw (c.request_is, ki, eq_refl p.tenant, eq_refl key) known in
      let again : find (is_replay p.tenant key p.actor) s.requests ≡ some a =
        rw c.stored (find-set (is_replay p.tenant key p.actor) a r.requests none_before own) in
      rw (c.may_execute, kj, filled, request_by_idempotency_key, again) refl
