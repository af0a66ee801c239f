-- ===== src/Pool/Tests.antt =====
-- Runs of the pool life cycle.
use icminers_stratum_v.Prelude.{
  str_eq, ◌≡◌, ◌⊎◌, ◌≤◌, refl, [], ◌∷◌, true, false, some, Str, codes, list_beq,
}
use icminers_stratum_v.Pool.Lifecycle.{
  restart_pool, LifecycleManager, start_pool, stop_pool, resume_pool, drain_pool, ticked, drained,
  apply_remote_state, run_command, apply, new_manager, start_manager, get_pool_state, pool_accepts,
}
use icminers_stratum_v.Pool.Service.{start, cannot_apply, PoolConfig, Service, stopped, new_service}
use icminers_stratum_v.Prelude.Dict.{lookup, insert}
use icminers_stratum_v.Pool.State.{active, maintenance, disabled, can_transition, parse_state}
use icminers_stratum_v.Pool.Invariant.{Reached, built, launched, commanded, Reached-Fit}
use icminers_stratum_v.Pool.Isolation.{run_command-legal}
use icminers_stratum_v.Pool.Stranded.{run_command_strands}

abbrev config : Str → PoolConfig
config name = record {
  id = name;
  coin_symbol = codes "BTC";
  enabled = true;
  initial_state = codes "active";
  maintenance_message = [];
  payment_mode = codes "solo";
}

abbrev btc : Str
btc = codes "btc"

abbrev two_pools : LifecycleManager
two_pools = new_manager (config btc ∷ config (codes "ltc") ∷ []) 0

abbrev running_pools : LifecycleManager
running_pools = (apply (start_manager two_pools) btc drain_pool 5).0

abbrev service : Service
service = new_service (config btc) 0

reached : Reached running_pools
unfolding new_manager
reached =
    commanded _ btc drain_pool 5
      (launched two_pools refl (built (config btc ∷ config (codes "ltc") ∷ []) 0))

abbrev draining_service : Service
draining_service = (run_command true (start service) drain_pool 5).0

shown : lookup btc running_pools.pools ≡ some draining_service
unfolding apply start_manager new_manager lookup insert list_beq
shown = refl

Reached-Fit_example :
    (draining_service.live ≤ 1)
    × (draining_service.state ≡ disabled → draining_service.live ≡ 0)
    × (running_pools.started ≡ false → draining_service.live ≡ 0)
Reached-Fit_example = Reached-Fit running_pools btc draining_service reached shown

run_command-legal_example :
    (can_transition service.state (run_command true service drain_pool 3).0.state ≡ true)
    ⊎ ((drain_pool ≡ restart_pool) × ((run_command true service drain_pool 3).0.state ≡ active))
run_command-legal_example = run_command-legal true service drain_pool 3

run_command_strands_example :
    let stopped_pool = (run_command true service stop_pool 3).0 in
    let resumed = (run_command true stopped_pool resume_pool 3).0 in
    let again = (run_command true resumed start_pool 3).0 in
    (again.state ≡ active) × (again.phase ≡ stopped) × ((run_command true again ticked 3).0 ≡ again)
run_command_strands_example = run_command_strands true service 3

drained_state : get_pool_state (apply running_pools btc drained 65).0 btc ≡ some maintenance
unfolding get_pool_state apply start_manager new_manager lookup insert list_beq parse_state
drained_state = refl

refused : pool_accepts running_pools btc ≡ some false
unfolding pool_accepts apply start_manager new_manager lookup insert list_beq parse_state
refused = refl

unknown_state :
    (apply two_pools btc (apply_remote_state (codes "broken") []) 1).1 ≡ some cannot_apply
unfolding apply new_manager lookup insert list_beq parse_state
unknown_state = refl
