-- ===== src/Actions/Handlers.antt =====
-- apps/api/src/server.ts: the handlers that request and decide actions of agents. A handler reads the clock
-- once; the redaction of an action's content, the ids of requests, and the checks of a principal and of
-- the schema are arguments. Audit events are not modelled.
use forgetbase.Prelude.{
  ℕ, suc, ◌-◌, ◌*◌, String, Bool, true, false, not, ◌&&◌, Option, none, some, if◌then◌else◌, leb,
  is_filled,
}
use forgetbase.LocalSync.Canonical.{Json, Fields, no_fields, entry, bool, quoted}
use forgetbase.Actions.Policies.{
  ActionStatus, approval_required, approved, denied, executed, expired, Actor, value_or, no_effects,
  is_task, evaluate,
}
use forgetbase.Actions.Requests.{
  Request, Repository, get_policy, ActionInput, new_request, set_request,
  request_by_idempotency_key, count_requests_since, get_request, Ruling, merge, decide_request,
}

-- the answers of the handlers, with the codes of HTTP
pub data Reply : Type 0 where
  access_denied invalid_input not_found : Reply
  rate_limited : (recent : ℕ) → Reply
  not_awaiting : (current : ActionStatus) → Reply
  replayed created decided too_late : Request → Reply

-- an authenticated caller; `may_execute` and `is_admin` are the checks of its scopes
pub record Principal : Type 0 where
  pub tenant : String
  pub actor : Actor
  pub may_execute : Bool
  pub is_admin : Bool

abbrev pub hour_ms : ℕ
hour_ms = 60 * 60 * 1000

-- what follows the lookup of the idempotency key
unfoldable pub submit :
    (ℕ → String)
    → (ActionInput → Fields × Fields)
    → Principal
    → ActionInput
    → ℕ
    → Repository
    → Reply × Repository
unfolding get_policy count_requests_since evaluate
submit id_text redact p i now r =
    let policy = get_policy p.tenant r in
    let recent = count_requests_since p.tenant (now - hour_ms) r in
    let a = new_request (id_text r.next_request_id) p.tenant i (redact i) policy p.actor now in
    if leb policy.max_requests_per_hour recent then (rate_limited recent, r) else (
      created a,
      record r { requests = set_request a r.requests; next_request_id = suc r.next_request_id },
    )

abbrev pub replay_of : Principal → Option String → Repository → Option Request
replay_of p none r = none
replay_of p (some key) r =
    if is_filled key then request_by_idempotency_key p.tenant key p.actor r else none

-- `POST /agent/actions/execute`; no input is one that the schema refuses
unfoldable pub execute_action :
    (ℕ → String)
    → (ActionInput → Fields × Fields)
    → Principal
    → Option ActionInput
    → ℕ
    → Repository
    → Reply × Repository
unfolding submit request_by_idempotency_key
execute_action id_text redact p input now r =
    if not p.may_execute then (access_denied, r) else elim input [
      | none ↦ (invalid_input, r)
      | some i ↦ elim (replay_of p i.key r) [
        | some existing ↦ (replayed existing, r)
        | none ↦ submit id_text redact p i now r
      ]
    ]

-- `AgentActionDecisionInput`
pub record DecisionInput : Type 0 where
  pub decided_id : String
  pub approves : Bool
  pub given_reason : Option String
  pub given_metadata : Fields

abbrev pub is_awaiting : ActionStatus → Bool
is_awaiting approval_required = true
is_awaiting _ = false

abbrev pub is_approval_expired : Request → ℕ → Bool
is_approval_expired a now = elim a.approval_expires_at [ none ↦ false | some t ↦ leb t now ]

abbrev pub approval_ruling : Request → DecisionInput → Ruling
approval_ruling a d =
    if is_task a.action_type
    then record {
      ruled_status = executed;
      ruled_result = entry "taskRecordCreated" (bool true) (
          entry "externalSideEffects" (bool false)
            (entry "approvedFromRequestId" (quoted a.request_id) no_fields));
      ruled_reason = d.given_reason;
      ruled_metadata = d.given_metadata;
    }
    else record {
      ruled_status = approved;
      ruled_result = entry "approved" (bool true) (
          entry "externalSideEffects" (bool false)
            (entry "executionDeferred" (bool true) no_fields));
      ruled_reason = d.given_reason;
      ruled_metadata = d.given_metadata;
    }

abbrev pub denial : DecisionInput → Ruling
denial d = record {
  ruled_status = denied;
  ruled_result = entry "approved" (bool false) no_effects;
  ruled_reason = d.given_reason;
  ruled_metadata = d.given_metadata;
}

-- the metadata of an approval that comes too late; `at` is the text of a time
abbrev pub expiry_ruling : (ℕ → Json) → Request → DecisionInput → Ruling
expiry_ruling iso a d = record {
  ruled_status = expired;
  ruled_result = entry "approved" (bool false) (entry "expired" (bool true) no_effects);
  ruled_reason = some "approval_expired";
  ruled_metadata = merge d.given_metadata (
      entry "attemptedDecision" (quoted "approve")
        (entry "approvalExpiresAt" (iso (value_or a.approval_expires_at 0)) no_fields));
}

abbrev pub answer : (Request → Reply) → Option Request × Repository → Reply × Repository
answer reply (none, r) = (not_found, r)
answer reply (some a, r) = (reply a, r)

-- `POST /agent/actions/:actionRequestId/decision`
unfoldable pub decide_action :
    (ℕ → Json) → Principal → Option DecisionInput → ℕ → Repository → Reply × Repository
unfolding decide_request get_request
decide_action iso p input now r = if not p.is_admin then (access_denied, r) else elim input [
  | none ↦ (invalid_input, r)
  | some d ↦ elim (get_request p.tenant d.decided_id r) [
    | none ↦ (not_found, r)
    | some a ↦
        if not (is_awaiting a.status)
        then (not_awaiting a.status, r)
        else if d.approves && is_approval_expired a now
        then answer too_late
            (decide_request p.tenant d.decided_id (expiry_ruling iso a d) p.actor now r)
        else answer decided (
            decide_request p.tenant d.decided_id
              (if d.approves then approval_ruling a d else denial d) p.actor now r)
  ]
]
