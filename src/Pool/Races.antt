-- ===== src/Pool/Races.antt =====
-- internal/pool/lifecycle.go: `StartPool`, `StopPool` and `RestartPool` hold no lock from their first
-- step to their last. Here each is a list of steps, which may come between the steps of another.
use icminers_stratum_v.Prelude.{
  ℕ, ◌+◌, ◌≤◌, ◌≡◌, refl, arith, List, [], ◌∷◌, Bool, true, none, some, codes, inl, inr, ap, Str,
  ◌∙◌, sym,
}
use icminers_stratum_v.Pool.State.{active, disabled, same, can_transition}
use icminers_stratum_v.Pool.Service.{Service, set_state, start, stop, moved, hook_calls}
use icminers_stratum_v.Pool.Lifecycle.{do_start, do_stop, do_restart, launch}
use icminers_stratum_v.Pool.Laws.{set_state-cases}
use icminers_stratum_v.Pool.Stranded.{set_state-disabled, do_stop-moved}

-- `s.stop()`; the change of state in each of the three operations, which `RestartPool` forces where
-- it is illegal; `s.start(m.ctx)`, if there is a context.
pub data Section : Type 0 where
  stop_loop activate activate_restarted disable launch_loop : Section

unfoldable pub run_section : Bool → Service → Section → ℕ → Service
unfolding set_state stop start
run_section started s stop_loop now = stop s
run_section started s activate now = (set_state s active (codes "StartPool") now).0
run_section started s activate_restarted now =
    let (s', failed, changes) = set_state s active (codes "RestartPool") now in
    elim failed [ none ↦ s' | some e ↦ record s' { state = active; state_changed_at = now } ]
run_section started s disable now = (set_state s disabled (codes "StopPool") now).0
run_section started s launch_loop now = launch started s

unfoldable pub run_sections : Bool → Service → List Section → ℕ → Service
unfolding run_section
run_sections started s [] now = s
run_sections started s (x ∷ xs) now = run_sections started (run_section started s x now) xs now

-- What an operation does that no other overlaps.
abbrev pub start_sections : List Section
start_sections = activate ∷ launch_loop ∷ []

abbrev pub stop_sections : List Section
stop_sections = disable ∷ stop_loop ∷ []

abbrev pub restart_sections : List Section
restart_sections = stop_loop ∷ activate_restarted ∷ launch_loop ∷ []

run_sections-restart :
    (started : Bool) (s : Service) (now : ℕ)
    → run_sections started s restart_sections now ≡ (do_restart started s now).0
unfolding run_sections run_section do_restart
run_sections-restart started s now =
    elim (set_state-cases (stop s) active (codes "RestartPool") now) [
      | inl (can, e) ↦ rw (run_sections, run_section, do_restart, e) refl
      | inr e ↦ rw (run_sections, run_section, do_restart, e) refl
    ]

can_activate : (s : Service) → same s.state disabled ≡ true → can_transition s.state active ≡ true
unfolding can_transition
can_activate s off = ground (arith, off)

set_state-active :
    (s : Service) (reason : Str) (now : ℕ)
    → same s.state disabled ≡ true
    → set_state s active reason now ≡ (moved s active reason now, none, hook_calls s active reason)
unfolding set_state
set_state-active s reason now off = rw (can_activate s off) refl

do_start-moved :
    (started : Bool) (s : Service) (now : ℕ)
    → same s.state disabled ≡ true
    → (do_start started s now).0 ≡ launch started (moved s active (codes "StartPool") now)
unfolding do_start
do_start-moved started s now off =
    let e = set_state-active s (codes "StartPool") now off in rw (off, e, do_start, e) refl

run_sections-start :
    (started : Bool) (s : Service) (now : ℕ)
    → same s.state disabled ≡ true
    → run_sections started s start_sections now ≡ (do_start started s now).0
unfolding run_sections run_section
run_sections-start started s now off =
    ap (λ o. launch started o.0) (set_state-active s (codes "StartPool") now off)
    ∙ sym (do_start-moved started s now off)

run_sections-stop :
    (started : Bool) (s : Service) (now : ℕ)
    → run_sections started s stop_sections now ≡ (do_stop s now).0
unfolding run_sections run_section
run_sections-stop started s now =
    ap (λ o. stop o.0) (set_state-disabled s (codes "StopPool") now) ∙ sym (do_stop-moved s now)

-- A launch of a pool that is active, and one more.
two_launches :
    (s : Service) (now : ℕ)
    → s.state ≡ active
    → (run_sections true s (launch_loop ∷ launch_loop ∷ []) now).live ≡ s.live + 2
unfolding run_sections run_section start
two_launches s now on = rw on (omega arith)

-- Each step of two overlapping operations is taken by both before the next.
abbrev pub in_step : List Section → List Section
in_step [] = []
in_step (x ∷ xs) = x ∷ x ∷ in_step xs

activated :
    (s : Service) (now : ℕ)
    → let s' = run_section true s activate_restarted now in (s'.state ≡ active) × (s'.live ≡ s.live)
unfolding run_section
activated s now = elim (set_state-cases s active (codes "RestartPool") now) [
  | inl (can, e) ↦ rw (run_section, e) (ap (λ o. o.0.state) e, ap (λ o. o.0.live) e)
  | inr e ↦ rw (run_section, e) (refl, ap (λ o. o.0.live) e)
]

activated_again :
    (s : Service) (now : ℕ)
    → s.state ≡ active
    → let s' = run_section true s activate now in (s'.state ≡ active) × (s'.live ≡ s.live)
unfolding run_section
activated_again s now on = elim (set_state-cases s active (codes "StartPool") now) [
  | inl (can, e) ↦ (ap (λ o. o.0.state) e, ap (λ o. o.0.live) e)
  | inr e ↦ (ap (λ o. o.0.state) e ∙ on, ap (λ o. o.0.live) e)
]

activated_off :
    (s : Service) (now : ℕ)
    → same s.state disabled ≡ true
    → let s' = run_section true s activate now in (s'.state ≡ active) × (s'.live ≡ s.live)
unfolding run_section
activated_off s now off =
    let e = set_state-active s (codes "StartPool") now off in
    (ap (λ o. o.0.state) e, ap (λ o. o.0.live) e)

-- Once the manager has started, the steps of an operation that nothing overlaps do what the
-- operation does. But two restarts of a pool in step, whatever its state, and two starts of a disabled
-- pool in step, leave two loops where there was one at most or none; and between the steps of a stop
-- the pool is disabled while as many loops run as before.
run_sections-in_step :
    (s : Service) (now : ℕ)
    → (run_sections true s restart_sections now ≡ (do_restart true s now).0)
      × (run_sections true s stop_sections now ≡ (do_stop s now).0)
      × (s.live ≤ 1 → (run_sections true s (in_step restart_sections) now).live ≡ 2)
      × (same s.state disabled ≡ true
          → (run_sections true s start_sections now ≡ (do_start true s now).0)
            × ((run_sections true s (in_step start_sections) now).live ≡ s.live + 2))
      × (let half = run_sections true s (disable ∷ []) now in
          (half.state ≡ disabled) × (half.live ≡ s.live))
unfolding run_sections run_section
run_sections-in_step s now = (
  run_sections-restart true s now,
  run_sections-stop true s now,
  λ few.
      let stopped_twice = stop (stop s) in
      let once = run_section true stopped_twice activate_restarted now in
      let twice = run_section true once activate_restarted now in
      let (on, same_live) = activated stopped_twice now in
      let (still_on, still_live) = activated once now in
      omega (arith, few, same_live, still_live, two_launches twice now still_on),
  λ off. (
    run_sections-start true s now off,
    (let once = run_section true s activate now in
        let twice = run_section true once activate now in
        let (on, same_live) = activated_off s now off in
        let (still_on, still_live) = activated_again once now on in
        omega (arith, same_live, still_live, two_launches twice now still_on)),
  ),
  (let e = set_state-disabled s (codes "StopPool") now in
      (ap (λ o. o.0.state) e, ap (λ o. o.0.live) e)),
)
