-- ===== src/Pool/Stranded.antt =====
-- internal/pool/lifecycle.go: `ResumePool` on a pool that `StopPool` has disabled.
use icminers_stratum_v.Pool.Service.{hook_calls}
use icminers_stratum_v.Pool.Lifecycle.{start_pool, stop_pool, resume_pool, ticked}
use icminers_stratum_v.Pool.Service.{stop}
use icminers_stratum_v.Prelude.{ℕ, ◌≡◌, refl, Bool, true, none, Str, arith, str_eq, codes}
use icminers_stratum_v.Pool.State.{State, active, disabled, can_transition}
use icminers_stratum_v.Pool.Service.{Service, stopped, set_state, moved, stop}
use icminers_stratum_v.Pool.Lifecycle.{
  start_pool, stop_pool, resume_pool, ticked, run_command, do_stop,
}

can_disable : (a : State) → can_transition a disabled ≡ true
unfolding can_transition
can_disable a = ground arith

pub set_state-disabled :
    (s : Service) (reason : Str) (now : ℕ)
    → set_state s disabled reason now
      ≡ (moved s disabled reason now, none, hook_calls s disabled reason)
unfolding set_state
set_state-disabled s reason now = rw (can_disable s.state) refl

pub do_stop-moved :
    (s : Service) (now : ℕ) → (do_stop s now).0 ≡ stop (moved s disabled (codes "StopPool") now)
unfolding do_stop
do_stop-moved s now = let e = set_state-disabled s (codes "StopPool") now in rw (e, do_stop, e) refl

-- A pool that was stopped and then resumed, as the master's state messages do it, is active without
-- a running loop: no tick reaches the poller, and starting the pool does not change that.
pub run_command_strands :
    (started : Bool) (s : Service) (now : ℕ)
    → let stopped_pool = (run_command started s stop_pool now).0 in
      let resumed = (run_command started stopped_pool resume_pool now).0 in
      let again = (run_command started resumed start_pool now).0 in
      (again.state ≡ active)
      × (again.phase ≡ stopped)
      × ((run_command started again ticked now).0 ≡ again)
unfolding run_command
run_command_strands started s now = rw (do_stop-moved s now) (refl, refl, refl)
