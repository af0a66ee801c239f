-- ===== src/Pool/Lifecycle.antt =====
-- internal/pool/lifecycle.go: the manager of all pools. The map holds pointers: what an operation
-- does to a service is put back. An operation's work on its service is a command; the events of a
-- service's goroutine and timers are commands too. `StartPool`, `StopPool` and `RestartPool`, which
-- hold no lock from their first step to their last, are one command each, as they are where no other
-- operation on the pool overlaps them; Races has their steps.
use icminers_stratum_v.Prelude.{
  false, str_eq, ℕ, List, [], ◌∷◌, Bool, true, if◌then◌else◌, Option, none, some, Str, codes,
}
use icminers_stratum_v.Prelude.Dict.{Dict, lookup, insert}
use icminers_stratum_v.Coins.Template.{is_empty}
use icminers_stratum_v.Pool.State.{
  State, active, draining, maintenance, paused, disabled, error, same, parse_state,
  accepts_new_authorization,
}
use icminers_stratum_v.Pool.Service.{
  PoolConfig, Service, Change, LifecycleError, Outcome, new_service, set_state, start, stop, tick,
  poll_done, retry, begin_drain, drain_elapsed, unknown_pool, cannot_apply,
}

pub record LifecycleManager : Type 0 where
  pub pools : Dict Str Service
  -- Whether `Start` has set the context.
  pub started : Bool

pub data Command : Type 0 where
  set_poller start_pool stop_pool pause_pool resume_pool drain_pool disable_pool restart_pool :
      Command
  put_in_maintenance : Str → Command
  apply_remote_state : Str → Str → Command
  ticked retried drained : Command
  polled : Option Str → Command

abbrev pub reason_or : Str → Str → Str
reason_or reason fallback = if is_empty reason then fallback else reason

abbrev pub launch : Bool → Service → Service
launch started s = if started then start s else s

unfoldable pub do_start : Bool → Service → ℕ → Outcome
unfolding set_state start
do_start started s now =
    let (s', failed, changes) = set_state s active (codes "StartPool") now in
    if same s.state disabled
    then elim failed [ some e ↦ (s', some e, changes) | none ↦ (launch started s', none, changes) ]
    else (s', failed, changes)

unfoldable pub do_stop : Service → ℕ → Outcome
unfolding set_state stop
do_stop s now =
    let (s', failed, changes) = set_state s disabled (codes "StopPool") now in
    elim failed [ some e ↦ (s', some e, changes) | none ↦ (stop s', none, changes) ]

unfoldable pub do_maintenance : Service → Str → ℕ → Outcome
unfolding set_state
do_maintenance s reason now =
    let s' = record s {
      maintenance_message = if is_empty reason then s.maintenance_message else reason;
    } in
    set_state s' maintenance (reason_or reason (codes "PutPoolInMaintenance")) now

unfoldable pub do_restart : Bool → Service → ℕ → Outcome
unfolding set_state stop start
do_restart started s now =
    let (s', failed, changes) = set_state (stop s) active (codes "RestartPool") now in
    elim failed [
      | none ↦ (launch started s', none, changes)
      | some e ↦
          (launch started (record s' { state = active; state_changed_at = now }), none, changes)
    ]

unfoldable pub apply_state : Service → Option State → Str → ℕ → Outcome
unfolding set_state do_maintenance do_stop begin_drain
apply_state s (some paused) reason now = set_state s paused (codes "PausePool") now
apply_state s (some active) reason now = set_state s active (codes "ResumePool") now
apply_state s (some maintenance) reason now = do_maintenance s reason now
apply_state s (some disabled) reason now = do_stop s now
apply_state s (some draining) reason now = begin_drain s (codes "DrainPool") now
apply_state s (some error) reason now = (s, some cannot_apply, [])
apply_state s none reason now = (s, some cannot_apply, [])

abbrev pub quiet : Service × List Change → Outcome
quiet (s, changes) = (s, none, changes)

unfoldable pub run_command : Bool → Service → Command → ℕ → Outcome
unfolding do_start do_stop do_maintenance do_restart apply_state tick poll_done retry drain_elapsed
run_command started s set_poller now = (record s { has_poller = true }, none, [])
run_command started s start_pool now = do_start started s now
run_command started s stop_pool now = do_stop s now
run_command started s pause_pool now = set_state s paused (codes "PausePool") now
run_command started s resume_pool now = set_state s active (codes "ResumePool") now
run_command started s drain_pool now = begin_drain s (codes "DrainPool") now
run_command started s disable_pool now = do_stop s now
run_command started s restart_pool now = do_restart started s now
run_command started s (put_in_maintenance reason) now = do_maintenance s reason now
run_command started s (apply_remote_state to reason) now = apply_state s (parse_state to) reason now
run_command started s ticked now = (tick s, none, [])
run_command started s retried now = quiet (retry s now)
run_command started s drained now = quiet (drain_elapsed s now)
run_command started s (polled result) now = quiet (poll_done s result now)

abbrev pub effective : PoolConfig → PoolConfig
effective cfg = if cfg.enabled then cfg else record cfg { initial_state = codes "disabled" }

-- The loop of `NewManager`: a later configuration replaces one with the same id.
unfoldable pub add_pools : Dict Str Service → List PoolConfig → ℕ → Dict Str Service
unfolding new_service
add_pools pools [] now = pools
add_pools pools (cfg ∷ cfgs) now =
    add_pools (insert cfg.id (new_service (effective cfg) now) pools) cfgs now

unfoldable pub new_manager : List PoolConfig → ℕ → LifecycleManager
unfolding add_pools
new_manager cfgs now = record { pools = add_pools [] cfgs now; started = false }

unfoldable pub start_all : Dict Str Service → Dict Str Service
unfolding start
start_all [] = []
start_all ((id, s) ∷ pools) = (id, start s) ∷ start_all pools

unfoldable pub start_manager : LifecycleManager → LifecycleManager
unfolding start_all
start_manager m = record { pools = start_all m.pools; started = true }

unfoldable pub stop_all : Dict Str Service → Dict Str Service
unfolding stop
stop_all [] = []
stop_all ((id, s) ∷ pools) = (id, stop s) ∷ stop_all pools

-- `Stop`: every pool's loop ends; the states stay.
unfoldable pub stop_manager : LifecycleManager → LifecycleManager
unfolding stop_all
stop_manager m = record m { pools = stop_all m.pools }

-- The error for a pool that is not loaded; a remote state that none applies is refused before.
abbrev pub missing : Command → LifecycleError
missing (apply_remote_state to reason) = elim (parse_state to) [
  | none ↦ cannot_apply
  | some s ↦ if same s error then cannot_apply else unknown_pool
]
missing _ = unknown_pool

unfoldable pub apply :
    LifecycleManager → Str → Command → ℕ → LifecycleManager × Option LifecycleError × List Change
unfolding run_command
apply m pool_id cmd now = elim (lookup pool_id m.pools) [
  | none ↦ (m, some (missing cmd), [])
  | some s ↦
      (let (s', failed, changes) = run_command m.started s cmd now in
        (record m { pools = insert pool_id s' m.pools }, failed, changes))
]

unfoldable pub get_pool_state : LifecycleManager → Str → Option State
get_pool_state m pool_id = elim (lookup pool_id m.pools) [ none ↦ none | some s ↦ some s.state ]

unfoldable pub pool_accepts : LifecycleManager → Str → Option Bool
pool_accepts m pool_id = elim (lookup pool_id m.pools) [
  | none ↦ none
  | some s ↦ some (accepts_new_authorization s.state)
]
