-- ===== src/Actions/Policies.antt =====
-- packages/db/src/action-execution.ts and apps/api/src/server.ts: the policy of a tenant, and how it
-- evaluates a request.
use forgetbase.Prelude.{
  ℕ, String, Bool, true, false, not, ◌||◌, Option, none, some, List, [], ◌∷◌, if◌then◌else◌, nat_eq,
}
use forgetbase.LocalSync.Canonical.{Fields, no_fields, entry, bool}

-- `agentActionTypeSchema` and `agentActionStatusSchema`
pub data ActionType : Type 0 where
  create_task_record http_openapi mcp_tool git_repo document_connector local_command : ActionType

pub data ActionStatus : Type 0 where
  blocked dry_run approval_required approved denied executed expired : ActionStatus

abbrev pub type_number : ActionType → ℕ
type_number create_task_record = 0
type_number http_openapi = 1
type_number mcp_tool = 2
type_number git_repo = 3
type_number document_connector = 4
type_number local_command = 5

abbrev pub type_eq : ActionType → ActionType → Bool
type_eq a b = nat_eq (type_number a) (type_number b)

-- `types.includes(type)`
abbrev pub has_type : ActionType → List ActionType → Bool
has_type t [] = false
has_type t (u ∷ us) = type_eq u t || has_type t us

-- `Array.from(new Set(types))`, with what stands before the rest
abbrev pub unique_types : List ActionType → List ActionType → List ActionType
unique_types before [] = []
unique_types before (t ∷ ts) =
    if has_type t before then unique_types before ts else t ∷ unique_types (t ∷ before) ts

-- the users, service accounts and keys of an audit trail
pub record Actor : Type 0 where
  pub user_id : Option String
  pub service_account_id : Option String
  pub api_key_id : Option String

-- `AgentActionExecutionPolicy`
pub record Policy : Type 0 where
  pub enabled : Bool
  pub allowed_action_types : List ActionType
  pub require_approval : Bool
  pub dry_run_default : Bool
  pub kill_switch : Bool
  pub max_requests_per_hour : ℕ
  pub approval_expires_in_minutes : ℕ
  pub is_stored : Bool
  pub updated_by : Actor
  pub policy_created_at : Option ℕ
  pub policy_updated_at : Option ℕ

abbrev pub nobody : Actor
nobody = record { user_id = none; service_account_id = none; api_key_id = none }

-- `DEFAULT_AGENT_ACTION_EXECUTION_POLICY`
abbrev pub default_policy : Policy
default_policy = record {
  enabled = false;
  allowed_action_types = [];
  require_approval = true;
  dry_run_default = true;
  kill_switch = false;
  max_requests_per_hour = 60;
  approval_expires_in_minutes = 1440;
  is_stored = false;
  updated_by = nobody;
  policy_created_at = none;
  policy_updated_at = none;
}

-- `value ?? fallback`
abbrev pub value_or {ℓ} : {A : Type ℓ} → Option A → A → A
value_or none a = a
value_or (some b) a = b

-- `AgentActionExecutionPolicyInput`
pub record PolicyInput : Type 0 where
  pub set_enabled : Option Bool
  pub set_types : Option (List ActionType)
  pub set_approval : Option Bool
  pub set_dry_run : Option Bool
  pub set_kill_switch : Option Bool
  pub set_max_requests : Option ℕ
  pub set_expiry : Option ℕ

-- the outcome of `evaluateAgentActionExecution`
pub record Evaluation : Type 0 where
  pub outcome : ActionStatus
  pub runs_dry : Bool
  pub why : Option String
  pub effects : Fields

abbrev pub no_effects : Fields
no_effects = entry "externalSideEffects" (bool false) no_fields

abbrev pub evaluated : ActionStatus → Bool → String → Evaluation
evaluated status dry why = record {
  outcome = status;
  runs_dry = dry;
  why = some why;
  effects = no_effects;
}

abbrev pub is_task : ActionType → Bool
is_task t = type_eq t create_task_record

unfoldable pub evaluate : Policy → ActionType → Option Bool → Evaluation
evaluate policy action_type requested =
    let dry = value_or requested policy.dry_run_default in
    if policy.kill_switch
    then evaluated blocked dry "action_execution_kill_switch_enabled"
    else if not policy.enabled
    then evaluated blocked dry "action_execution_disabled"
    else if not (has_type action_type policy.allowed_action_types)
    then evaluated blocked dry "action_type_not_allowed"
    else if dry
    then evaluated dry_run true "dry_run_requested_or_defaulted"
    else if policy.require_approval
    then evaluated approval_required false "approval_required"
    else if is_task action_type
    then record {
      outcome = executed;
      runs_dry = false;
      why = none;
      effects = entry "taskRecordCreated" (bool true) no_effects;
    }
    else evaluated blocked false "action_adapter_unavailable"

-- `buildActionPolicySnapshot`: who has changed the policy and when is not part of it
abbrev pub snapshot : Policy → Policy
snapshot policy = record policy {
  updated_by = nobody;
  policy_created_at = none;
  policy_updated_at = none;
}
