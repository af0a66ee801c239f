-- ===== src/Api/Admin.antt =====
-- The admin routes of internal/api/server.go: the token, the six actions on a pool, the command that
-- goes out to the cluster, and the answer.
pub mod Laws
mod Tests
use icminers_stratum_v.Prelude.{
  ℕ, List, [], ◌∷◌, ◌++◌, Bool, true, false, not, if◌then◌else◌, Option, none, some, Str, codes,
  list_beq, str_eq,
}
use icminers_stratum_v.Prelude.Text.{trim}
use icminers_stratum_v.Coins.Template.{is_empty}
use icminers_stratum_v.Pool.State.{State, maintenance, same}
use icminers_stratum_v.Pool.Service.{
  LifecycleError, Change, unknown_pool, cannot_apply, illegal_transition,
}
use icminers_stratum_v.Pool.Lifecycle.{
  LifecycleManager, Command, pause_pool, resume_pool, drain_pool, put_in_maintenance, restart_pool,
  disable_pool, apply, get_pool_state,
}
use icminers_stratum_v.Stratum.Handler.{maintenance_message}
use icminers_stratum_v.Messaging.{CommandMsg, publish_command, default_message}

pub data AdminActionKind : Type 0 where
  action_pause action_resume action_drain action_maintenance action_restart action_disable :
      AdminActionKind

abbrev pub name : AdminActionKind → Str
name action_pause = codes "pause"
name action_resume = codes "resume"
name action_drain = codes "drain"
name action_maintenance = codes "maintenance"
name action_restart = codes "restart"
name action_disable = codes "disable"

-- A body that is not there or does not decode has a 0 and an empty text.
pub record AdminRequestBody : Type 0 where
  pub grace_period_seconds : ℕ
  pub message : Str

-- What is answered: the pool's state, that the command went out though it could not be applied here,
-- or an error's status.
pub data Response : Type 0 where
  pool_state : Str → State → Option Str → Response
  accepted : Str → Str → LifecycleError → Response
  not_found conflict unauthorized no_route : Response

unfoldable pub local_command : AdminActionKind → AdminRequestBody → Command
unfolding trim
local_command action_pause body = pause_pool
local_command action_resume body = resume_pool
local_command action_drain body = drain_pool
local_command action_maintenance body =
    let msg = trim body.message in
    put_in_maintenance (if is_empty msg then default_message else msg)
local_command action_restart body = restart_pool
local_command action_disable body = disable_pool

unfoldable pub admin_state_reply : LifecycleManager → Str → Response
unfolding get_pool_state maintenance_message
admin_state_reply lm pool_id = elim (get_pool_state lm pool_id) [
  | none ↦ not_found
  | some st ↦
      pool_state pool_id st
        (if same st maintenance then some (maintenance_message lm pool_id) else none)
]

-- The command for the cluster, as cmd/stratumd fills it in.
abbrev pub cluster_command : Str → Str → AdminActionKind → AdminRequestBody → CommandMsg
cluster_command origin pool_id kind body = record {
  pool_id = pool_id;
  action = name kind;
  message = body.message;
  grace_period_seconds = body.grace_period_seconds;
  origin = origin;
}

abbrev error_status : LifecycleError → Response
error_status unknown_pool = not_found
error_status cannot_apply = conflict
error_status (illegal_transition from to) = conflict

-- What the action leaves: the pools, the commands that went out, the answer, and the state changes.
pub record Done : Type 0 where
  pub lifecycle : LifecycleManager
  pub published : List (Str × CommandMsg)
  pub response : Response
  pub changes : List Change

-- The broker: none if there is no publisher, or whether it takes a message.
abbrev pub send : Option Bool → CommandMsg → List (Str × CommandMsg)
send none cmd = []
send (some false) cmd = []
send (some true) cmd = elim (publish_command cmd) [ none ↦ [] | some m ↦ m ∷ [] ]

abbrev answer :
    LifecycleManager
    → Str
    → AdminActionKind
    → Option LifecycleError
    → List (Str × CommandMsg)
    → Response
answer lm pool_id kind none sent = admin_state_reply lm pool_id
answer lm pool_id kind (some e) [] = error_status e
answer lm pool_id kind (some e) (m ∷ ms) = accepted pool_id (name kind) e

unfoldable pub admin_action :
    Str → Option Bool → LifecycleManager → AdminActionKind → Str → AdminRequestBody → ℕ → Done
unfolding local_command admin_state_reply apply publish_command
admin_action origin broker lm kind pool_id body now =
    let (lm', failed, changes) = apply lm pool_id (local_command kind body) now in
    let sent = send broker (cluster_command origin pool_id kind body) in
    record {
      lifecycle = lm';
      published = sent;
      response = answer lm' pool_id kind failed sent;
      changes = changes;
    }

abbrev pub only_answer : LifecycleManager → Response → Done
only_answer lm r = record { lifecycle = lm; published = []; response = r; changes = [] }

-- The route with its guard: without a token there is none.
unfoldable pub admin_request :
    Str
    → Str
    → Str
    → Option Bool
    → LifecycleManager
    → AdminActionKind
    → Str
    → AdminRequestBody
    → ℕ
    → Done
unfolding admin_action
admin_request token authorization origin broker lm kind pool_id body now =
    if is_empty token
    then only_answer lm no_route
    else if not (list_beq authorization (codes "Bearer " ++ token))
    then only_answer lm unauthorized
    else admin_action origin broker lm kind pool_id body now
