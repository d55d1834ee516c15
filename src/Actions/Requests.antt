-- ===== src/Actions/Requests.antt =====
-- packages/db/src/action-execution.ts: the in-memory repository, with its policies and requests. An
-- operation is given the time; the ids are made from the counter of the requests.
use forgetbase.Prelude.{
  lookup_key, set_key, ℕ, ◌+◌, ◌*◌, String, Bool, true, false, ◌&&◌, ◌||◌, Option, none, some, List,
  [], ◌∷◌, filter, find, length, if◌then◌else◌, leb, is_filled, opt_eq, ◌==◌,
}
use forgetbase.LocalSync.Canonical.{Json, Fields, no_fields, entry}
use forgetbase.Actions.Policies.{
  ActionType, ActionStatus, approval_required, executed, unique_types, Actor, Policy, nobody,
  default_policy, value_or, PolicyInput, evaluate, snapshot,
}

-- `AgentActionRequest`
pub record Request : Type 0 where
  pub request_id : String
  pub tenant_id : String
  pub action_type : ActionType
  pub title : String
  pub description : Option String
  pub target : Option String
  pub idempotency_key : Option String
  pub status : ActionStatus
  pub is_dry_run : Bool
  pub payload : Fields
  pub result : Fields
  pub reason : Option String
  pub policy_snapshot : Policy
  pub metadata : Fields
  pub requested_by : Actor
  pub decided_by : Actor
  pub created_at : ℕ
  pub updated_at : ℕ
  pub decided_at : Option ℕ
  pub approval_expires_at : Option ℕ
  pub executed_at : Option ℕ

pub record Repository : Type 0 where
  pub policies : List (String × Policy)
  pub requests : List Request
  pub next_request_id : ℕ

unfoldable pub get_policy : String → Repository → Policy
get_policy tenant r = value_or (lookup_key tenant r.policies) default_policy

unfoldable pub upsert_policy : String → PolicyInput → Actor → ℕ → Repository → Repository
unfolding get_policy
upsert_policy tenant i actor now r =
    let current = get_policy tenant r in
    record r {
      policies =
          set_key tenant
            (record {
              enabled = value_or i.set_enabled current.enabled;
              allowed_action_types = elim i.set_types [
                | none ↦ current.allowed_action_types
                | some ts ↦ unique_types [] ts
              ];
              require_approval = value_or i.set_approval current.require_approval;
              dry_run_default = value_or i.set_dry_run current.dry_run_default;
              kill_switch = value_or i.set_kill_switch current.kill_switch;
              max_requests_per_hour = value_or i.set_max_requests current.max_requests_per_hour;
              approval_expires_in_minutes =
                  value_or i.set_expiry current.approval_expires_in_minutes;
              is_stored = true;
              updated_by = actor;
              policy_created_at = some (value_or current.policy_created_at now);
              policy_updated_at = some now;
            })
            r.policies;
    }

-- `AgentActionExecuteInput`
pub record ActionInput : Type 0 where
  pub wanted_type : ActionType
  pub wanted_title : String
  pub wanted_description : Option String
  pub wanted_target : Option String
  pub key : Option String
  pub wants_dry_run : Option Bool
  pub wanted_payload : Fields
  pub wanted_metadata : Fields

abbrev pub approval_deadline : Policy → ActionStatus → ℕ → Option ℕ
approval_deadline policy approval_required now =
    some (now + policy.approval_expires_in_minutes * 60 * 1000)
approval_deadline policy _ now = none

abbrev pub executed_time : ActionStatus → ℕ → Option ℕ → Option ℕ
executed_time executed now before = some now
executed_time _ now before = before

-- the request that `createRequest` stores
abbrev pub new_request :
    String → String → ActionInput → Fields × Fields → Policy → Actor → ℕ → Request
new_request id tenant i (payload, metadata) policy actor now =
    let e = evaluate policy i.wanted_type i.wants_dry_run in
    record {
      request_id = id;
      tenant_id = tenant;
      action_type = i.wanted_type;
      title = i.wanted_title;
      description = i.wanted_description;
      target = i.wanted_target;
      idempotency_key = i.key;
      status = e.outcome;
      is_dry_run = e.runs_dry;
      payload = payload;
      result = e.effects;
      reason = e.why;
      policy_snapshot = snapshot policy;
      metadata = metadata;
      requested_by = actor;
      decided_by = nobody;
      created_at = now;
      updated_at = now;
      decided_at = none;
      approval_expires_at = approval_deadline policy e.outcome now;
      executed_at = executed_time e.outcome now none;
    }

-- `this.requests.set(request.id, request)`
abbrev pub set_request : Request → List Request → List Request
set_request a [] = a ∷ []
set_request a (b ∷ bs) = if b.request_id == a.request_id then a ∷ bs else b ∷ set_request a bs

-- `wanted && value === wanted`
abbrev pub is_same_actor : Option String → Option String → Bool
is_same_actor none value = false
is_same_actor (some s) value = is_filled s && opt_eq value (some s)

abbrev pub is_replay : String → String → Actor → Request → Bool
is_replay tenant key actor a =
    a.tenant_id == tenant
    && opt_eq a.idempotency_key (some key)
    && (is_same_actor actor.service_account_id a.requested_by.service_account_id
        || is_same_actor actor.user_id a.requested_by.user_id)

unfoldable pub request_by_idempotency_key : String → String → Actor → Repository → Option Request
request_by_idempotency_key tenant key actor r = find (is_replay tenant key actor) r.requests

unfoldable pub count_requests_since : String → ℕ → Repository → ℕ
count_requests_since tenant since r =
    length (filter (λ a. leb since a.created_at) (filter (λ a. a.tenant_id == tenant) r.requests))

unfoldable pub get_request : String → String → Repository → Option Request
get_request tenant id r = elim (find (λ a. a.request_id == id) r.requests) [
  | none ↦ none
  | some a ↦ if a.tenant_id == tenant then some a else none
]

-- what `decideRequest` is given
pub record Ruling : Type 0 where
  pub ruled_status : ActionStatus
  pub ruled_result : Fields
  pub ruled_reason : Option String
  pub ruled_metadata : Fields

-- `{ ...left, ...right }`
abbrev pub set_field : String → Json → Fields → Fields
set_field key value no_fields = entry key value no_fields
set_field key value (entry k v rest) =
    if k == key then entry k value rest else entry k v (set_field key value rest)

abbrev pub merge : Fields → Fields → Fields
merge left no_fields = left
merge left (entry k v rest) = merge (set_field k v left) rest

abbrev pub ruled : Request → Ruling → Actor → ℕ → Request
ruled a d actor now = record a {
  status = d.ruled_status;
  result = d.ruled_result;
  reason = d.ruled_reason;
  metadata = merge a.metadata d.ruled_metadata;
  decided_by = actor;
  decided_at = some now;
  executed_at = executed_time d.ruled_status now a.executed_at;
  updated_at = now;
}

unfoldable pub decide_request :
    String → String → Ruling → Actor → ℕ → Repository → Option Request × Repository
unfolding get_request
decide_request tenant id d actor now r = elim (get_request tenant id r) [
  | none ↦ (none, r)
  | some a ↦ (
    some (ruled a d actor now),
    record r { requests = set_request (ruled a d actor now) r.requests },
  )
]
