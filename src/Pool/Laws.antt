-- ===== src/Pool/Laws.antt =====
-- internal/pool: what every command does to its own service.
use icminers_stratum_v.Pool.State.{error}
use icminers_stratum_v.Pool.State.{paused}
use icminers_stratum_v.Prelude.{refl}
use icminers_stratum_v.Pool.Service.{hook_calls}
use icminers_stratum_v.Prelude.{[], none, some, Option, ◌⊎◌}
use icminers_stratum_v.Pool.Service.{stop, begin_drain, moved, illegal_transition}
use icminers_stratum_v.Prelude.{codes, ap, ◌∙◌, ◌-◌, inl, inr}
use icminers_stratum_v.Pool.Lifecycle.{
  launch, do_start, do_stop, do_maintenance, do_restart, apply_state,
}
use icminers_stratum_v.Prelude.{ℕ, ◌≡◌, ◌≢◌, Bool, true, false, Str, arith, Bool-cases, inl, inr}
use icminers_stratum_v.Pool.State.{
  draining, maintenance, active, State, disabled, same, can_transition,
}
use icminers_stratum_v.Pool.Service.{start, Service, Phase, stopped, set_state}

abbrev pub running : Phase → ℕ
running stopped = 0
running _ = 1

-- One goroutine at most runs a pool's loop, none before the manager has started, and none while
-- the pool is disabled.
pub record Fit (started : Bool) (s : Service) : Type 0 where
  pub counted : s.live ≡ running s.phase
  pub idle : s.state ≡ disabled → s.phase ≡ stopped
  pub early : started ≡ false → s.phase ≡ stopped

pub same→≡ : (a b : State) → same a b ≡ true → a ≡ b
same→≡ a b h = ground arith

-- A transition is made, or refused with nothing changed.
pub set_state-cases :
    (s : Service) (to : State) (reason : Str) (now : ℕ)
    → ((can_transition s.state to ≡ true)
        × (set_state s to reason now ≡ (moved s to reason now, none, hook_calls s to reason)))
      ⊎ (set_state s to reason now ≡ (s, some (illegal_transition s.state to), []))
unfolding set_state
set_state-cases s to reason now = elim (Bool-cases (can_transition s.state to)) [
  | inl can ↦ inl (can, rw can refl)
  | inr cannot ↦ inr (rw cannot refl)
]

pub set_state-Fit :
    (started : Bool) (s : Service) (to : State) (reason : Str) (now : ℕ)
    → to ≢ disabled
    → Fit started s
    → Fit started (set_state s to reason now).0
unfolding moved
set_state-Fit started s to reason now d v = elim (set_state-cases s to reason now) [
  | inl (can, e) ↦
      rw e (record { counted = v.counted; idle = λ off. absurd (d off); early = v.early })
  | inr e ↦ rw e v
]

pub launch-Fit :
    (started : Bool) (s : Service)
    → s.state ≢ disabled
    → s.phase ≡ stopped
    → s.live ≡ 0
    → Fit started (launch started s)
unfolding start
launch-Fit false s d p n = record { counted = ground (arith, n, p); idle = λ e. p; early = λ e. p }
launch-Fit true s d p n = elim (Bool-cases (same s.state disabled)) [
  | inl off ↦ absurd (d (same→≡ _ _ off))
  | inr on ↦
      rw on
        (record { counted = ground (arith, n); idle = λ e. absurd (d e); early = λ e. absurd (cc) })
]

emptied : (started : Bool) (s : Service) → Fit started s → s.live - 1 ≡ 0
emptied started s v = ground (arith, v.counted)

pub do_stop-Fit :
    (started : Bool) (s : Service) (now : ℕ) → Fit started s → Fit started (do_stop s now).0
unfolding do_stop
do_stop-Fit started s now v = elim (set_state-cases s disabled (codes "StopPool") now) [
  | inl (can, e) ↦
      rw (e, do_stop, e)
        (record { counted = emptied started s v; idle = λ e. refl; early = λ e. refl })
  | inr e ↦ rw (e, do_stop, e) v
]

pub active-≢-disabled : active ≢ disabled
active-≢-disabled e = absurd (cc)

pub do_restart-Fit :
    (started : Bool) (s : Service) (now : ℕ)
    → Fit started s
    → Fit started (do_restart started s now).0
unfolding do_restart
do_restart-Fit started s now v = elim (set_state-cases (stop s) active (codes "RestartPool") now) [
  | inl (can, e) ↦
      rw (e, do_restart, e)
        (launch-Fit started (moved (stop s) active (codes "RestartPool") now) active-≢-disabled refl
          (emptied started s v))
  | inr e ↦
      rw (e, do_restart, e)
        (launch-Fit started (record (stop s) { state = active; state_changed_at = now })
          active-≢-disabled refl (emptied started s v))
]

pub do_start-Fit :
    (started : Bool) (s : Service) (now : ℕ)
    → Fit started s
    → Fit started (do_start started s now).0
unfolding do_start
do_start-Fit started s now v = elim (Bool-cases (same s.state disabled)) [
  | inl off ↦
      let still = v.idle (same→≡ s.state disabled off) in
      elim (set_state-cases s active (codes "StartPool") now) [
        | inl (can, e) ↦
            rw (off, e, do_start, e)
              (launch-Fit started (moved s active (codes "StartPool") now) active-≢-disabled still
                (v.counted ∙ ap running still))
        | inr e ↦ rw (off, e, do_start, e) v
      ]
  | inr on ↦
      rw (on, do_start) (set_state-Fit started s active (codes "StartPool") now active-≢-disabled v)
]

pub do_maintenance-Fit :
    (started : Bool) (s : Service) (reason : Str) (now : ℕ)
    → Fit started s
    → Fit started (do_maintenance s reason now).0
unfolding do_maintenance
do_maintenance-Fit started s reason now v =
    set_state-Fit started _ maintenance _ now (λ e. absurd (cc))
      (record { counted = v.counted; idle = v.idle; early = v.early })

pub begin_drain-Fit :
    (started : Bool) (s : Service) (reason : Str) (now : ℕ)
    → Fit started s
    → Fit started (begin_drain s reason now).0
unfolding begin_drain
begin_drain-Fit started s reason now v = elim (set_state-cases s draining reason now) [
  | inl (can, e) ↦
      rw (e, begin_drain, e)
        (record { counted = v.counted; idle = λ off. absurd (cc); early = v.early })
  | inr e ↦ rw (e, begin_drain, e) v
]

pub apply_state-Fit :
    (started : Bool) (s : Service) (to : Option State) (reason : Str) (now : ℕ)
    → Fit started s
    → Fit started (apply_state s to reason now).0
unfolding apply_state
apply_state-Fit started s (some paused) reason now v =
    set_state-Fit started s paused _ now (λ e. absurd (cc)) v
apply_state-Fit started s (some active) reason now v =
    set_state-Fit started s active _ now active-≢-disabled v
apply_state-Fit started s (some maintenance) reason now v =
    do_maintenance-Fit started s reason now v
apply_state-Fit started s (some disabled) reason now v = do_stop-Fit started s now v
apply_state-Fit started s (some draining) reason now v = begin_drain-Fit started s _ now v
apply_state-Fit started s (some error) reason now v = v
apply_state-Fit started s none reason now v = v
