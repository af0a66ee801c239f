-- ===== src/Pool/Isolation.antt =====
-- internal/pool: a command touches its own pool only, and moves it along the state machine only.
use icminers_stratum_v.Pool.Lifecycle.{
  start_pool, stop_pool, pause_pool, resume_pool, drain_pool, disable_pool, restart_pool,
  put_in_maintenance, apply_remote_state, ticked, retried, drained, polled, set_poller, do_restart,
}
use icminers_stratum_v.Pool.Service.{tick, retry, poll_done, stop}
use icminers_stratum_v.Pool.State.{parse_state}
use icminers_stratum_v.Coins.Template.{is_empty}
use icminers_stratum_v.Prelude.{
  ℕ, ◌≡◌, ◌≢◌, ◌⊎◌, ◌&&◌, refl, [], Bool, true, false, if◌then◌else◌, Option, none, some, Str,
  arith, Bool-cases, Option-cases, inl, inr, str_eq, list_beq_iff, codes,
}
use icminers_stratum_v.Prelude.Dict.{lookup, lookup-insert}
use icminers_stratum_v.Pool.State.{
  State, active, draining, maintenance, paused, disabled, error, same, can_transition, parse_state,
}
use icminers_stratum_v.Pool.Service.{
  Service, set_state, moved, start, stop, tick, poll_done, retry, begin_drain, drain_elapsed,
}
use icminers_stratum_v.Pool.Lifecycle.{
  LifecycleManager, Command, set_poller, start_pool, stop_pool, pause_pool, resume_pool, drain_pool,
  disable_pool, restart_pool, put_in_maintenance, apply_remote_state, ticked, retried, drained,
  polled, run_command, apply, missing, do_start, do_stop, do_restart, apply_state, launch,
}
use icminers_stratum_v.Pool.Laws.{set_state-cases}
use icminers_stratum_v.Pool.Loop.{Phase-cases}

-- A command for one pool leaves every other pool as it was; one for a pool that is not loaded is
-- refused and changes nothing at all.
pub apply-isolated :
    (m : LifecycleManager) (id : Str) (cmd : Command) (now : ℕ)
    → ((other : Str)
        → id ≢ other
        → lookup other (apply m id cmd now).0.pools ≡ lookup other m.pools)
      × (lookup id m.pools ≡ none → apply m id cmd now ≡ (m, some (missing cmd), []))
unfolding apply
apply-isolated m id cmd now = (
  λ other d. elim (Option-cases (lookup id m.pools)) [
    | inl gone ↦ rw (gone, apply) refl
    | inr (s, e) ↦
        rw (e, apply)
          (ground (
            arith,
            d,
            lookup-insert id other (run_command m.started s cmd now).0 m.pools,
            list_beq_iff id other,
          ))
  ],
  λ gone. rw (gone, apply) refl,
)

can_transition_refl : (a : State) → can_transition a a ≡ true
unfolding can_transition
can_transition_refl a = ground arith

set_state-legal :
    (s : Service) (to : State) (reason : Str) (now : ℕ)
    → can_transition s.state (set_state s to reason now).0.state ≡ true
unfolding moved
set_state-legal s to reason now = elim (set_state-cases s to reason now) [
  | inl (can, e) ↦ rw e can
  | inr e ↦ rw e (can_transition_refl s.state)
]

start-state : (started : Bool) (s : Service) → (launch started s).state ≡ s.state
unfolding start
start-state false s = refl
start-state true s = ground arith

do_start-legal :
    (started : Bool) (s : Service) (now : ℕ)
    → can_transition s.state (do_start started s now).0.state ≡ true
unfolding do_start
do_start-legal started s now = elim (Bool-cases (same s.state disabled)) [
  | inr on ↦ rw (on, do_start) (set_state-legal s active _ now)
  | inl off ↦ elim (set_state-cases s active (codes "StartPool") now) [
    | inl (can, e) ↦
        rw (off, e, do_start, e, start-state started (moved s active (codes "StartPool") now)) can
    | inr e ↦ rw (off, e, do_start, e) (can_transition_refl s.state)
  ]
]

do_stop-legal : (s : Service) (now : ℕ) → can_transition s.state (do_stop s now).0.state ≡ true
unfolding do_stop
do_stop-legal s now = elim (set_state-cases s disabled (codes "StopPool") now) [
  | inl (can, e) ↦ rw (e, do_stop, e) can
  | inr e ↦ rw (e, do_stop, e) (can_transition_refl s.state)
]

begin_drain-legal :
    (s : Service) (reason : Str) (now : ℕ)
    → can_transition s.state (begin_drain s reason now).0.state ≡ true
unfolding begin_drain
begin_drain-legal s reason now = elim (set_state-cases s draining reason now) [
  | inl (can, e) ↦ rw (e, begin_drain, e) can
  | inr e ↦ rw (e, begin_drain, e) (can_transition_refl s.state)
]

apply_state-legal :
    (s : Service) (to : Option State) (reason : Str) (now : ℕ)
    → can_transition s.state (apply_state s to reason now).0.state ≡ true
unfolding apply_state
apply_state-legal s (some paused) reason now = set_state-legal s paused _ now
apply_state-legal s (some active) reason now = set_state-legal s active _ now
apply_state-legal s (some maintenance) reason now =
    set_state-legal
      (record s { maintenance_message = if is_empty reason then s.maintenance_message else reason })
      maintenance _ now
apply_state-legal s (some disabled) reason now = do_stop-legal s now
apply_state-legal s (some draining) reason now = begin_drain-legal s _ now
apply_state-legal s (some error) reason now = can_transition_refl s.state
apply_state-legal s none reason now = can_transition_refl s.state

tick-state : (s : Service) → (tick s).state ≡ s.state
unfolding tick
tick-state s = elim (Phase-cases s.phase) [
  | inl e ↦ rw (e, tick) refl
  | inr (inl e) ↦ rw (e, tick) (ground arith)
  | inr (inr (inl e)) ↦ rw (e, tick) refl
  | inr (inr (inr e)) ↦ rw (e, tick) refl
]

retry-legal : (s : Service) (now : ℕ) → can_transition s.state (retry s now).0.state ≡ true
unfolding retry
retry-legal s now = elim (Phase-cases s.phase) [
  | inl e ↦ rw (e, retry) (can_transition_refl s.state)
  | inr (inl e) ↦ rw (e, retry) (can_transition_refl s.state)
  | inr (inr (inl e)) ↦ rw (e, retry) (can_transition_refl s.state)
  | inr (inr (inr e)) ↦ elim (Bool-cases (same s.state error)) [
    | inl still ↦ rw (e, retry, still) (set_state-legal s active _ now)
    | inr moved_on ↦ rw (e, retry, moved_on) (can_transition_refl s.state)
  ]
]

drain_elapsed-legal :
    (s : Service) (now : ℕ) → can_transition s.state (drain_elapsed s now).0.state ≡ true
unfolding drain_elapsed
drain_elapsed-legal s now = elim (Bool-cases (s.drain_armed && same s.state draining)) [
  | inl due ↦
      rw (due, drain_elapsed) (set_state-legal (record s { drain_armed = false }) maintenance _ now)
  | inr not_due ↦ rw (not_due, drain_elapsed) (can_transition_refl s.state)
]

poll_done-legal :
    (s : Service) (result : Option Str) (now : ℕ)
    → can_transition s.state (poll_done s result now).0.state ≡ true
unfolding poll_done
poll_done-legal s result now = elim (Phase-cases s.phase) [
  | inl e ↦ rw (e, poll_done) (can_transition_refl s.state)
  | inr (inl e) ↦ rw (e, poll_done) (can_transition_refl s.state)
  | inr (inr (inr e)) ↦ rw (e, poll_done) (can_transition_refl s.state)
  | inr (inr (inl e)) ↦ elim (Option-cases result) [
    | inl done ↦ rw (e, done, poll_done) (can_transition_refl s.state)
    | inr (reason, failed) ↦ rw (e, failed, poll_done) (set_state-legal s error reason now)
  ]
]

restart-state :
    (started : Bool) (s : Service) (now : ℕ) → (do_restart started s now).0.state ≡ active
unfolding do_restart
restart-state started s now = elim (set_state-cases (stop s) active (codes "RestartPool") now) [
  | inl (can, e) ↦
      rw (e, do_restart, e) (start-state started (moved (stop s) active (codes "RestartPool") now))
  | inr e ↦
      rw (e, do_restart, e)
        (start-state started (record (stop s) { state = active; state_changed_at = now }))
]

-- Every command, and every event of the loop and the timers, moves the pool along the state machine
-- or leaves its state alone; only a restart may go elsewhere, and always to active.
pub run_command-legal :
    (started : Bool) (s : Service) (cmd : Command) (now : ℕ)
    → (can_transition s.state (run_command started s cmd now).0.state ≡ true)
      ⊎ ((cmd ≡ restart_pool) × ((run_command started s cmd now).0.state ≡ active))
unfolding run_command
run_command-legal started s set_poller now = inl (can_transition_refl s.state)
run_command-legal started s start_pool now = inl (do_start-legal started s now)
run_command-legal started s stop_pool now = inl (do_stop-legal s now)
run_command-legal started s pause_pool now = inl (set_state-legal s paused _ now)
run_command-legal started s resume_pool now = inl (set_state-legal s active _ now)
run_command-legal started s drain_pool now = inl (begin_drain-legal s _ now)
run_command-legal started s disable_pool now = inl (do_stop-legal s now)
run_command-legal started s restart_pool now = inr (refl, restart-state started s now)
run_command-legal started s (put_in_maintenance reason) now =
    inl (apply_state-legal s (some maintenance) reason now)
run_command-legal started s (apply_remote_state to reason) now =
    inl (apply_state-legal s (parse_state to) reason now)
run_command-legal started s ticked now = inl (rw (tick-state s) (can_transition_refl s.state))
run_command-legal started s retried now = inl (retry-legal s now)
run_command-legal started s drained now = inl (drain_elapsed-legal s now)
run_command-legal started s (polled result) now = inl (poll_done-legal s result now)
