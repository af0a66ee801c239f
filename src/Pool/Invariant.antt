-- ===== src/Pool/Invariant.antt =====
-- internal/pool: what holds of every pool, whatever operations, loop events and timers come one after
-- the other in whatever order.
use mathlib.Core.Option
use icminers_stratum_v.Prelude.{
  ◌≤◌, ◌∙◌, ap, subst, ℕ, ◌≡◌, refl, List, [], ◌∷◌, Bool, true, false, some, Str, arith, Bool-cases,
  Option-cases, inl, inr, str_eq, list_beq,
}
use icminers_stratum_v.Pool.Laws.{
  launch-Fit, Fit, running, set_state-Fit, do_start-Fit, do_stop-Fit, do_restart-Fit,
  do_maintenance-Fit, begin_drain-Fit, apply_state-Fit, active-≢-disabled,
}
use icminers_stratum_v.Pool.Lifecycle.{
  set_poller, start_pool, stop_pool, pause_pool, resume_pool, drain_pool, disable_pool,
  restart_pool, put_in_maintenance, apply_remote_state, ticked, retried, drained, polled,
  LifecycleManager, Command, run_command, new_manager, add_pools, effective, start_manager,
  start_all, apply,
}
use icminers_stratum_v.Pool.State.{active, parse_state, disabled, same, paused}
use icminers_stratum_v.Prelude.Dict.{Dict, lookup, insert, lookup-insert}
use icminers_stratum_v.Pool.Service.{PoolConfig, Service, new_service, start}
use icminers_stratum_v.Pool.Loop.{tick-Fit, poll_done-Fit, retry-Fit, drain_elapsed-Fit}

run_command-Fit :
    (started : Bool) (s : Service) (cmd : Command) (now : ℕ)
    → Fit started s
    → Fit started (run_command started s cmd now).0
unfolding run_command
run_command-Fit started s set_poller now v = record {
  counted = v.counted;
  idle = v.idle;
  early = v.early;
}
run_command-Fit started s start_pool now v = do_start-Fit started s now v
run_command-Fit started s stop_pool now v = do_stop-Fit started s now v
run_command-Fit started s pause_pool now v =
    set_state-Fit started s paused _ now (λ x. absurd (cc)) v
run_command-Fit started s resume_pool now v =
    set_state-Fit started s active _ now active-≢-disabled v
run_command-Fit started s drain_pool now v = begin_drain-Fit started s _ now v
run_command-Fit started s disable_pool now v = do_stop-Fit started s now v
run_command-Fit started s restart_pool now v = do_restart-Fit started s now v
run_command-Fit started s (put_in_maintenance reason) now v =
    do_maintenance-Fit started s reason now v
run_command-Fit started s (apply_remote_state to reason) now v =
    apply_state-Fit started s (parse_state to) reason now v
run_command-Fit started s ticked now v = tick-Fit started s v
run_command-Fit started s retried now v = retry-Fit started s now v
run_command-Fit started s drained now v = drain_elapsed-Fit started s now v
run_command-Fit started s (polled result) now v = poll_done-Fit started s result now v

-- Every manager that a process reaches: built from configurations, started once, and commanded.
pub data Reached : LifecycleManager → Type 0 where
  built : (cfgs : List PoolConfig) (now : ℕ) → Reached (new_manager cfgs now)
  launched : (m : LifecycleManager) → m.started ≡ false → Reached m → Reached (start_manager m)
  commanded :
      (m : LifecycleManager) (id : Str) (cmd : Command) (now : ℕ)
      → Reached m
      → Reached (apply m id cmd now).0

abbrev AllFit : Bool → Dict Str Service → Type 0
AllFit started pools = (id : Str) (s : Service) → lookup id pools ≡ some s → Fit started s

AllFit-insert :
    (started : Bool) (pools : Dict Str Service) (id : Str) (s : Service)
    → Fit started s
    → AllFit started pools
    → AllFit started (insert id s pools)
AllFit-insert started pools id s v all j t e = elim (Bool-cases (list_beq id j)) [
  | inl here ↦ subst (Fit started) (ground (arith, e, here, lookup-insert id j s pools)) v
  | inr there ↦ all j t (ground (arith, e, there, lookup-insert id j s pools))
]

add_pools-AllFit :
    (pools : Dict Str Service) (cfgs : List PoolConfig) (now : ℕ)
    → AllFit false pools
    → AllFit false (add_pools pools cfgs now)
unfolding add_pools
add_pools-AllFit pools [] now all = all
add_pools-AllFit pools (cfg ∷ cfgs) now all =
    add_pools-AllFit (insert cfg.id (new_service (effective cfg) now) pools) cfgs now (
      AllFit-insert false pools cfg.id (new_service (effective cfg) now)
        (record { counted = refl; idle = λ e. refl; early = λ e. refl }) all)

start-Fit : (s : Service) → Fit false s → Fit true (start s)
unfolding start
start-Fit s v = elim (Bool-cases (same s.state disabled)) [
  | inl off ↦
      rw (off, start) (record { counted = v.counted; idle = v.idle; early = λ e. absurd (cc) })
  | inr on ↦
      launch-Fit true s (λ e. absurd (ground (arith, on, e))) (v.early refl)
        (v.counted ∙ ap running (v.early refl))
]

lookup-start_all :
    (id : Str) (pools : Dict Str Service)
    → lookup id (start_all pools) ≡ Option.map start (lookup id pools)
unfolding start_all lookup
lookup-start_all id [] = refl
lookup-start_all id ((j, s) ∷ pools) = elim (Bool-cases (list_beq j id)) [
  | inl here ↦ rw here refl
  | inr there ↦ rw there (lookup-start_all id pools)
]

start_all-AllFit : (pools : Dict Str Service) → AllFit false pools → AllFit true (start_all pools)
start_all-AllFit pools all id s e = elim (Option-cases (lookup id pools)) [
  | inl gone ↦ absurd (ground (arith, e, gone, lookup-start_all id pools))
  | inr (t, here) ↦
      subst (Fit true) (ground (arith, e, here, lookup-start_all id pools))
        (start-Fit t (all id t here))
]

apply-AllFit :
    (m : LifecycleManager) (id : Str) (cmd : Command) (now : ℕ)
    → AllFit m.started m.pools
    → AllFit (apply m id cmd now).0.started (apply m id cmd now).0.pools
unfolding apply
apply-AllFit m id cmd now all = elim (Option-cases (lookup id m.pools)) [
  | inl gone ↦ rw (gone, apply) all
  | inr (s, here) ↦
      rw (here, apply)
        (AllFit-insert m.started m.pools id (run_command m.started s cmd now).0
          (run_command-Fit m.started s cmd now (all id s here)) all)
]

Reached-AllFit : (m : LifecycleManager) → Reached m → AllFit m.started m.pools
unfolding lookup add_pools new_manager start_manager
Reached-AllFit m (built cfgs now) = add_pools-AllFit [] cfgs now (λ j t none_e. absurd (cc))
Reached-AllFit m (launched n early r) =
    start_all-AllFit n.pools (subst (λ b. AllFit b n.pools) early (Reached-AllFit n r))
Reached-AllFit m (commanded n j cmd now r) = apply-AllFit n j cmd now (Reached-AllFit n r)

-- As long as no operation on a pool starts before the one before it has ended: in every manager that
-- is reached, between the operations and the events of the loops, each pool's loop runs in one
-- goroutine at most, in none while the pool is disabled, and in none before the manager has started.
pub Reached-Fit :
    (m : LifecycleManager) (id : Str) (s : Service)
    → Reached m
    → lookup id m.pools ≡ some s
    → (s.live ≤ 1) × (s.state ≡ disabled → s.live ≡ 0) × (m.started ≡ false → s.live ≡ 0)
Reached-Fit m id s r e =
    let v = Reached-AllFit m r id s e in
    (
      ground (arith, v.counted),
      λ off. v.counted ∙ ap running (v.idle off),
      λ no. v.counted ∙ ap running (v.early no),
    )
