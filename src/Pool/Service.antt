-- ===== src/Pool/Service.antt =====
-- internal/pool/service.go: one pool's service. The supervised loop is a phase: it waits for the
-- next tick, is inside the poller, or backs off after an error; the ticks, the poller's answers
-- and the two timers are commands of their own, so that they may come between any two others.
-- `live` counts the goroutines that run the loop. Context cancellation and `loopWG.Wait` of `stop`
-- end the loop at once. A state change's hook call is returned as a value.
use icminers_stratum_v.Prelude.{
  ℕ, ◌+◌, ◌-◌, List, [], ◌∷◌, Bool, true, false, ◌&&◌, if◌then◌else◌, Option, none, some, Str,
  codes,
}
use icminers_stratum_v.Pool.State.{
  State, active, draining, maintenance, disabled, error, same, can_transition, parse_state,
  runs_template_polling,
}

pub record PoolConfig : Type 0 where
  pub id : Str
  pub coin_symbol : Str
  pub enabled : Bool
  pub initial_state : Str
  pub maintenance_message : Str
  pub payment_mode : Str

pub data Phase : Type 0 where
  stopped waiting polling backing_off : Phase

pub record Service : Type 0 where
  pub cfg : PoolConfig
  pub state : State
  pub maintenance_message : Str
  pub last_error : Str
  pub state_changed_at : ℕ
  pub phase : Phase
  pub live : ℕ
  pub drain_armed : Bool
  pub has_poller : Bool

-- A call of the state hook.
pub record Change : Type 0 where
  pub pool_id : Str
  pub from : State
  pub to : State
  pub reason : Str

pub data LifecycleError : Type 0 where
  unknown_pool cannot_apply : LifecycleError
  illegal_transition : State → State → LifecycleError

abbrev pub Outcome : Type 0
Outcome = Service × Option LifecycleError × List Change

unfoldable pub new_service : PoolConfig → ℕ → Service
new_service cfg now = record {
  cfg = cfg;
  state = elim (parse_state cfg.initial_state) [ none ↦ active | some s ↦ s ];
  maintenance_message = cfg.maintenance_message;
  last_error = [];
  state_changed_at = now;
  phase = stopped;
  live = 0;
  drain_armed = false;
  has_poller = false;
}

unfoldable pub moved : Service → State → Str → ℕ → Service
moved s to reason now = record s {
  state = to;
  state_changed_at = now;
  last_error = if same to error then reason else s.last_error;
}

-- The hook fires only where the state changes.
abbrev pub hook_calls : Service → State → Str → List Change
hook_calls s to reason =
    if same s.state to
    then []
    else record { pool_id = s.cfg.id; from = s.state; to = to; reason = reason } ∷ []

unfoldable pub set_state : Service → State → Str → ℕ → Outcome
unfolding can_transition moved
set_state s to reason now =
    if can_transition s.state to
    then (moved s to reason now, none, hook_calls s to reason)
    else (s, some (illegal_transition s.state to), [])

unfoldable pub start : Service → Service
start s = if same s.state disabled then s else record s { phase = waiting; live = s.live + 1 }

unfoldable pub stop : Service → Service
stop s = record s { drain_armed = false; phase = stopped; live = s.live - 1 }

-- One tick of `runOnce`: the poller runs only where the state allows it and there is one.
unfoldable pub tick : Service → Service
tick s = elim s.phase [
  | waiting ↦
      if runs_template_polling s.state && s.has_poller then record s { phase = polling } else s
  | _ ↦ s
]

-- The poller's answer, `some` error or none, in `superviseLoop`; a panic is an error here.
unfoldable pub poll_done : Service → Option Str → ℕ → Service × List Change
unfolding set_state
poll_done s result now = elim s.phase [
  | polling ↦ elim result [
    | none ↦ (record s { phase = waiting }, [])
    | some reason ↦
        (let (s', _, changes) = set_state s error reason now in
          (record s' { phase = backing_off }, changes))
  ]
  | _ ↦ (s, [])
]

-- The end of the backoff: a recovery, unless the state has been changed.
unfoldable pub retry : Service → ℕ → Service × List Change
unfolding set_state
retry s now = elim s.phase [
  | backing_off ↦
      (let (s', _, changes) = set_state s active (codes "retry after backoff") now in
        if same s.state error
        then (record s' { phase = waiting }, changes)
        else (record s { phase = waiting }, []))
  | _ ↦ (s, [])
]

unfoldable pub begin_drain : Service → Str → ℕ → Outcome
unfolding set_state
begin_drain s reason now =
    let (s', failed, changes) = set_state s draining reason now in
    elim failed [
      | some e ↦ (s', some e, changes)
      | none ↦ (record s' { drain_armed = true }, none, changes)
    ]

-- The drain timer's function.
unfoldable pub drain_elapsed : Service → ℕ → Service × List Change
unfolding set_state
drain_elapsed s now =
    let fired = record s { drain_armed = false } in
    let (s', _, changes) = set_state fired maintenance (codes "drain grace period elapsed") now in
    if s.drain_armed && same s.state draining then (s', changes) else (fired, [])
