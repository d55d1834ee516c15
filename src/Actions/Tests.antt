-- ===== src/Actions/Tests.antt =====
-- Runs of the action requests, and their theorems at concrete inputs.
use Prim.Native.Char.{Char}
use forgetbase.Prelude.{ℕ, zero, suc, ◌⊎◌, String, ◌≡◌, refl, ap, true, false, none, some, [], ◌∷◌}
use forgetbase.LocalSync.Canonical.{Json, Fields, no_fields, quoted}
use forgetbase.Actions.Policies.{PolicyInput, Actor, create_task_record, mcp_tool, evaluate}
use forgetbase.Actions.Requests.{
  Request, Repository, ActionInput, get_policy, upsert_policy, count_requests_since, get_request,
  decide_request, request_by_idempotency_key, new_request, ruled,
}
use forgetbase.Actions.Handlers.{
  DecisionInput, Principal, created, replayed, submit, execute_action, decide_action, denial,
  approval_ruling,
}
use forgetbase.Actions.Final.{
  done, after, requests_action, decides, sets_policy, settled_stays, lookup_request,
}
use forgetbase.Actions.Execute.{
  execute_action-IsStored, execute_action-replay, is_created, IsStored,
}
use forgetbase.Actions.Deciding.{decide_action-IsDecided, IsDecided}

abbrev mark : Char
mark = "a"

abbrev tally : ℕ → String
tally zero = String.[]
tally (suc n) = String.◌∷◌ mark (tally n)

tally_injective : (i j : ℕ) → tally i ≡ tally j → i ≡ j
tally_injective zero zero e = refl
tally_injective zero (suc j) e = cc
tally_injective (suc i) zero e = cc
tally_injective (suc i) (suc j) e = ap suc (tally_injective i j (cc))

abbrev redact : ActionInput → Fields × Fields
redact i = (i.wanted_payload, i.wanted_metadata)

abbrev iso : ℕ → Json
iso n = quoted (tally n)

abbrev alice : Actor
alice = record { user_id = some "alice"; service_account_id = none; api_key_id = none }

abbrev caller : Principal
caller = record { tenant = "t"; actor = alice; may_execute = true; is_admin = true }

abbrev task_input : ActionInput
task_input = record {
  wanted_type = create_task_record;
  wanted_title = "Review";
  wanted_description = none;
  wanted_target = none;
  key = some "once";
  wants_dry_run = some false;
  wanted_payload = no_fields;
  wanted_metadata = no_fields;
}

abbrev decision : DecisionInput
decision = record {
  decided_id = tally 1;
  approves = true;
  given_reason = none;
  given_metadata = no_fields;
}

abbrev open_policy : PolicyInput
open_policy = record {
  set_enabled = some true;
  set_types = some (create_task_record ∷ mcp_tool ∷ mcp_tool ∷ []);
  set_approval = some true;
  set_dry_run = none;
  set_kill_switch = none;
  set_max_requests = none;
  set_expiry = some 1;
}

abbrev bare : Repository
bare = record { policies = []; requests = []; next_request_id = 1 }

abbrev with_policy : Repository
with_policy = upsert_policy "t" open_policy alice 5 bare

abbrev without_approval : Repository
without_approval = upsert_policy "t" (record open_policy { set_approval = some false }) alice 5 bare

abbrev asked : Repository
asked = (execute_action tally redact caller (some task_input) 10 with_policy).1

abbrev asking : Request
asking =
    new_request (tally 1) "t" task_input (no_fields, no_fields) (get_policy "t" with_policy) alice
      10

abbrev refused : DecisionInput
refused = record decision { approves = false }

abbrev settled : Repository
settled = (decide_action iso caller (some refused) 20 asked).1

abbrev refusal : Request
refusal = ruled asking (denial refused) alice 20

opened : Unit {0}
unfolding get_policy upsert_policy count_requests_since get_request decide_request submit
    execute_action decide_action evaluate request_by_idempotency_key
opened = tt

asking_stored :
    execute_action tally redact caller (some task_input) 10 with_policy ≡ (created asking, asked)
unfolding opened
asking_stored = refl

-- Two decisions that have both read the request before the first was written: the request is denied and then executed.
race_executes :
    (decide_request "t"
      (tally 1)
      (approval_ruling asking decision)
      alice
      21
      (decide_request "t" (tally 1) (denial refused) alice 20 asked).1).0
    ≡ some (ruled refusal (approval_ruling asking decision) alice 21)
unfolding opened
race_executes = refl

settled_stays_example :
    lookup_request (tally 1) (decide_action iso caller (some decision) 30 settled).1.requests
    ≡ some refusal
unfolding opened
settled_stays_example =
    settled_stays tally redact iso tally_injective bare settled
      (decide_action iso caller (some decision) 30 settled).1 (tally 1) refusal refl
      (after bare asked settled
        (after bare with_policy asked
          (after bare bare with_policy (done bare) (sets_policy "t" open_policy alice 5 bare))
          (requests_action caller (some task_input) 10 with_policy))
        (decides caller (some refused) 20 asked))
      (after settled settled _ (done settled) (decides caller (some decision) 30 settled)) refl refl

execute_action-IsStored_example :
    (((execute_action tally redact caller (some task_input) 10 with_policy).1 ≡ with_policy)
      × (is_created (execute_action tally redact caller (some task_input) 10 with_policy).0
          ≡ false))
    ⊎ IsStored tally redact caller
        (some task_input)
        10
        with_policy
        (execute_action tally redact caller (some task_input) 10 with_policy)
execute_action-IsStored_example =
    execute_action-IsStored tally redact caller (some task_input) 10 with_policy

execute_action-replay_example :
    execute_action tally redact caller
      (some (record task_input { wanted_title = "Again" }))
      40
      asked
    ≡ (replayed asking, asked)
execute_action-replay_example =
    execute_action-replay tally redact caller task_input
      (record task_input { wanted_title = "Again" }) 10 40 with_policy asking asked "once"
      asking_stored refl refl refl refl

decide_action-IsDecided_example :
    (a : Request) × IsDecided caller decision 20 asked
      (decide_action iso caller (some decision) 20 asked).1
      a
      (ruled asking (approval_ruling asking decision) alice 20)
unfolding opened
decide_action-IsDecided_example =
    decide_action-IsDecided iso caller decision 20 asked _
      (decide_action iso caller (some decision) 20 asked).1 refl
