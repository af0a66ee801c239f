-- ===== src/Messaging.antt =====
-- internal/messaging/nats: the events that a region publishes and the master consumes, and the
-- commands that the master publishes and the regions apply. NATS and JSON are outside: the codec of
-- the payloads is a parameter.
pub mod Publisher
pub mod Sink
pub mod Delivery
pub mod Kept
mod Tests
use icminers_stratum_v.Prelude.{
  ℕ, List, [], ◌++◌, Bool, if◌then◌else◌, Option, none, some, Str, codes, list_beq,
}
use icminers_stratum_v.Prelude.Text.{has_prefix}
use icminers_stratum_v.Coins.Template.{is_empty}
use icminers_stratum_v.Pool.Service.{
  LifecycleError, Change, unknown_pool, cannot_apply, illegal_transition,
}
use icminers_stratum_v.Pool.Lifecycle.{
  LifecycleManager, Command, pause_pool, resume_pool, drain_pool, put_in_maintenance, restart_pool,
  disable_pool, apply,
}

abbrev pub subject_share_prefix : Str
subject_share_prefix = codes "shares."

abbrev pub subject_block_prefix : Str
subject_block_prefix = codes "blocks."

abbrev pub subject_state_prefix : Str
subject_state_prefix = codes "poolstate."

abbrev pub subject_cmd_prefix : Str
subject_cmd_prefix = codes "commands.pool."

abbrev dot : Str
dot = codes "."

unfoldable pub share_subject : Str → Str → Str
share_subject region pool_id = subject_share_prefix ++ (region ++ (dot ++ pool_id))

unfoldable pub block_subject : Str → Str → Str
block_subject region pool_id = subject_block_prefix ++ (region ++ (dot ++ pool_id))

unfoldable pub state_subject : Str → Str → Str
state_subject region pool_id = subject_state_prefix ++ (region ++ (dot ++ pool_id))

unfoldable pub command_subject : Str → Str
command_subject pool_id = subject_cmd_prefix ++ pool_id

pub record ShareEventMsg (F : Type 0) : Type 0 where
  pub pool_id : Str
  pub region : Str
  pub block_height : ℕ
  pub share_diff : F
  pub worker_diff : F
  pub network_difficulty : F
  pub miner : Str
  pub worker : Str
  pub user_agent : Str
  pub ip_address : Str
  pub created : ℕ
  pub is_block_candidate : Bool

pub record BlockEventMsg (F : Type 0) : Type 0 where
  pub pool_id : Str
  pub region : Str
  pub block_height : ℕ
  pub network_difficulty : F
  pub miner : Str
  pub worker : Str
  pub hash : Str
  pub reward_sats : ℕ
  pub created : ℕ

pub record StateChangeMsg : Type 0 where
  pub pool_id : Str
  pub region : Str
  pub node_id : Str
  pub from : Str
  pub to : Str
  pub reason : Str
  pub created : ℕ

-- json.Marshal, which succeeds on these types, and json.Unmarshal; `P` is the type of the payloads,
-- which are only passed on.
pub record Json (P A : Type 0) : Type 0 where
  pub marshal : A → P
  pub unmarshal : P → Option A

pub record Codecs (F P : Type 0) : Type 0 where
  pub shares : Json P (ShareEventMsg F)
  pub blocks : Json P (BlockEventMsg F)
  pub states : Json P StateChangeMsg

-- The calls of the master's `EventSink`.
pub data Sunk (F : Type 0) : Type 0 where
  sink_share : ShareEventMsg F → Sunk F
  sink_block : BlockEventMsg F → Sunk F
  sink_state_change : StateChangeMsg → Sunk F

abbrev deliver {ℓ} : {A B : Type ℓ} → (A → B) → Option A → Option B
deliver f none = none
deliver f (some a) = some (f a)

module _ {F P : Type 0} (codecs : Codecs F P) where
  -- `Consumer.handle`: the sink's call, if there is one; the message is acknowledged in any case.
  unfoldable pub handle_message : Str → P → Option (Sunk F)
  unfolding has_prefix
  handle_message subject payload =
      if has_prefix subject subject_share_prefix
      then deliver sink_share (codecs.shares.unmarshal payload)
      else if has_prefix subject subject_block_prefix
      then deliver sink_block (codecs.blocks.unmarshal payload)
      else if has_prefix subject subject_state_prefix
      then deliver sink_state_change (codecs.states.unmarshal payload)
      else none

-- A number of seconds that is not positive is 0.
pub record CommandMsg : Type 0 where
  pub pool_id : Str
  pub action : Str
  pub message : Str
  pub grace_period_seconds : ℕ
  pub origin : Str

pub data CommandError : Type 0 where
  unknown_action : CommandError
  refused : LifecycleError → CommandError

-- `PublishCommand` refuses a command without a pool or an action.
unfoldable pub publish_command : CommandMsg → Option (Str × CommandMsg)
unfolding command_subject
publish_command cmd =
    if is_empty cmd.pool_id
    then none
    else if is_empty cmd.action
    then none
    else some (command_subject cmd.pool_id, cmd)

abbrev pub default_message : Str
default_message = codes "pool is under maintenance"

-- The grace period of a drain is the timer's, which may elapse at any time.
unfoldable pub command_of : CommandMsg → Option Command
command_of cmd =
    if list_beq cmd.action (codes "pause")
    then some pause_pool
    else if list_beq cmd.action (codes "resume")
    then some resume_pool
    else if list_beq cmd.action (codes "drain")
    then some drain_pool
    else if list_beq cmd.action (codes "maintenance")
    then some (put_in_maintenance (if is_empty cmd.message then default_message else cmd.message))
    else if list_beq cmd.action (codes "restart")
    then some restart_pool
    else if list_beq cmd.action (codes "disable")
    then some disable_pool
    else none

-- A pool that this node does not host is no error.
abbrev pub command_error : Option LifecycleError → Option CommandError
command_error none = none
command_error (some unknown_pool) = none
command_error (some cannot_apply) = some (refused cannot_apply)
command_error (some (illegal_transition from to)) = some (refused (illegal_transition from to))

-- `LifecycleApplier`.
unfoldable pub apply_command :
    LifecycleManager → CommandMsg → ℕ → LifecycleManager × Option CommandError × List Change
unfolding command_of apply
apply_command lm cmd now = elim (command_of cmd) [
  | none ↦ (lm, some unknown_action, [])
  | some c ↦
      (let (lm', failed, changes) = apply lm cmd.pool_id c now in
        (lm', command_error failed, changes))
]
