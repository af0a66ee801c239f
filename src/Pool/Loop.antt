-- ===== src/Pool/Loop.antt =====
-- internal/pool/service.go: the supervised loop's events keep one goroutine at most, and none for a
-- disabled pool.
use icminers_stratum_v.Pool.State.{error}
use icminers_stratum_v.Pool.Laws.{running, Fit, set_state-cases, set_state-Fit, active-≢-disabled}
use icminers_stratum_v.Prelude.{Option-cases, sym, ◌&&◌}
use icminers_stratum_v.Pool.State.{error, runs_template_polling}
use icminers_stratum_v.Prelude.{refl}
use icminers_stratum_v.Pool.Service.{
  retry, drain_elapsed, backing_off, polling, waiting, tick, poll_done,
}
use icminers_stratum_v.Prelude.{Option, ◌⊎◌}
use icminers_stratum_v.Pool.Service.{moved}
use icminers_stratum_v.Prelude.{codes, ap, ◌∙◌, inl, inr}
use icminers_stratum_v.Prelude.{ℕ, ◌≡◌, ◌≢◌, Bool, false, Str, Bool-cases, inl, inr}
use icminers_stratum_v.Pool.State.{draining, maintenance, active, State, same}
use icminers_stratum_v.Pool.Service.{Service, Phase, stopped, set_state}

pub Phase-cases :
    (p : Phase) → (p ≡ stopped) ⊎ ((p ≡ waiting) ⊎ ((p ≡ polling) ⊎ (p ≡ backing_off)))
Phase-cases stopped = inl refl
Phase-cases waiting = inr (inl refl)
Phase-cases polling = inr (inr (inl refl))
Phase-cases backing_off = inr (inr (inr refl))

-- A live loop in another phase: the goroutine is the same.
rephase-Fit :
    (started : Bool) (s : Service) (from to : Phase)
    → s.phase ≡ from
    → from ≢ stopped
    → running to ≡ 1
    → running from ≡ 1
    → Fit started s
    → Fit started (record s { phase = to })
rephase-Fit started s from to e d one same_one v = record {
  counted = v.counted ∙ ap running e ∙ same_one ∙ sym one;
  idle = λ off. absurd (d (sym e ∙ v.idle off));
  early = λ no. absurd (d (sym e ∙ v.early no));
}

set_state-phase :
    (s : Service) (to : State) (reason : Str) (now : ℕ)
    → (set_state s to reason now).0.phase ≡ s.phase
unfolding moved
set_state-phase s to reason now = elim (set_state-cases s to reason now) [
  | inl (can, e) ↦ rw e refl
  | inr e ↦ rw e refl
]

pub tick-Fit : (started : Bool) (s : Service) → Fit started s → Fit started (tick s)
unfolding tick
tick-Fit started s v = elim (Phase-cases s.phase) [
  | inl e ↦ rw (e, tick) v
  | inr (inl e) ↦ elim (Bool-cases (runs_template_polling s.state && s.has_poller)) [
    | inl polls ↦
        rw (e, tick, polls) (rephase-Fit started s waiting polling e (λ x. absurd (cc)) refl refl v)
    | inr idle ↦ rw (e, tick, idle) v
  ]
  | inr (inr (inl e)) ↦ rw (e, tick) v
  | inr (inr (inr e)) ↦ rw (e, tick) v
]

pub poll_done-Fit :
    (started : Bool) (s : Service) (result : Option Str) (now : ℕ)
    → Fit started s
    → Fit started (poll_done s result now).0
unfolding poll_done
poll_done-Fit started s result now v = elim (Phase-cases s.phase) [
  | inl e ↦ rw (e, poll_done) v
  | inr (inl e) ↦ rw (e, poll_done) v
  | inr (inr (inl e)) ↦ elim (Option-cases result) [
    | inl done ↦
        rw (e, done, poll_done)
          (rephase-Fit started s polling waiting e (λ x. absurd (cc)) refl refl v)
    | inr (reason, failed) ↦
        rw (e, failed, poll_done)
          (rephase-Fit started (set_state s error reason now).0 polling backing_off
            (set_state-phase s error reason now ∙ e) (λ x. absurd (cc)) refl refl
            (set_state-Fit started s error reason now (λ x. absurd (cc)) v))
  ]
  | inr (inr (inr e)) ↦ rw (e, poll_done) v
]

pub retry-Fit :
    (started : Bool) (s : Service) (now : ℕ) → Fit started s → Fit started (retry s now).0
unfolding retry
retry-Fit started s now v = elim (Phase-cases s.phase) [
  | inl e ↦ rw (e, retry) v
  | inr (inl e) ↦ rw (e, retry) v
  | inr (inr (inl e)) ↦ rw (e, retry) v
  | inr (inr (inr e)) ↦
      let reason = codes "retry after backoff" in
      elim (Bool-cases (same s.state error)) [
        | inl still ↦
            rw (e, retry, still)
              (rephase-Fit started (set_state s active reason now).0 backing_off waiting
                (set_state-phase s active reason now ∙ e) (λ x. absurd (cc)) refl refl
                (set_state-Fit started s active reason now active-≢-disabled v))
        | inr moved_on ↦
            rw (e, retry, moved_on)
              (rephase-Fit started s backing_off waiting e (λ x. absurd (cc)) refl refl v)
      ]
]

pub drain_elapsed-Fit :
    (started : Bool) (s : Service) (now : ℕ) → Fit started s → Fit started (drain_elapsed s now).0
unfolding drain_elapsed
drain_elapsed-Fit started s now v =
    let fired : Fit started (record s { drain_armed = false }) = record {
      counted = v.counted;
      idle = v.idle;
      early = v.early;
    } in
    elim (Bool-cases (s.drain_armed && same s.state draining)) [
      | inl due ↦
          rw (due, drain_elapsed)
            (set_state-Fit started (record s { drain_armed = false }) maintenance _ now
              (λ x. absurd (cc)) fired)
      | inr not_due ↦ rw (not_due, drain_elapsed) fired
    ]
