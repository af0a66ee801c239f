-- ===== src/Vardiff/Controller.antt =====
-- internal/stratum/vardiff/controller.go: a session's difficulty from its share rate. Times and
-- intervals are nanoseconds; `seconds` is `Duration.Seconds`.
use icminers_stratum_v.Prelude.{
  refl, ℕ, ◌+◌, ◌-◌, Bool, true, false, ltb, leb, ◌==◌, if◌then◌else◌, ◌||◌, ◌≡◌, Bool-cases, inl,
  inr,
}
use icminers_stratum_v.Prelude.Floats.{Floats}

pub record ControllerConfig (F : Type 0) : Type 0 where
  pub min_diff : F
  pub max_diff : F
  pub target_interval : ℕ
  pub retarget_interval : ℕ
  pub variance_percent : F
  pub max_adjust_factor : F

pub record Controller (F : Type 0) : Type 0 where
  pub cfg : ControllerConfig F
  pub window_start : ℕ
  pub shares : ℕ
  pub last_retarget : ℕ

module _ (fl : Floats) where
  open fl use {F, of_ℕ, sub, mul, div, lt, le, eq}

  -- An interval that is not positive is 0.
  unfoldable pub controller_defaults : ControllerConfig F → ControllerConfig F
  controller_defaults c =
      let low = if le c.min_diff (of_ℕ 0) then div (of_ℕ 1) (of_ℕ 1000) else c.min_diff in
      record {
        min_diff = low;
        max_diff =
            if le c.max_diff (of_ℕ 0) || lt c.max_diff low then of_ℕ 1099511627776 else c.max_diff;
        target_interval = if leb c.target_interval 0 then 10000000000 else c.target_interval;
        retarget_interval = if leb c.retarget_interval 0 then 60000000000 else c.retarget_interval;
        variance_percent = if le c.variance_percent (of_ℕ 0) then of_ℕ 30 else c.variance_percent;
        max_adjust_factor = if le c.max_adjust_factor (of_ℕ 1) then of_ℕ 4 else c.max_adjust_factor;
      }

  unfoldable pub new_controller : ControllerConfig F → ℕ → Controller F
  unfolding controller_defaults
  new_controller cfg now = record {
    cfg = controller_defaults cfg;
    window_start = now;
    shares = 0;
    last_retarget = now;
  }

  unfoldable pub on_share : Controller F → Controller F
  on_share c = record c { shares = c.shares + 1 }

  unfoldable pub seconds : ℕ → F
  seconds n = div (of_ℕ n) (of_ℕ 1000000000)

  unfoldable pub clamp : F → F → F → F
  clamp low high d =
      let raised = if lt d low then low else d in if lt high raised then high else raised

  -- The change is proportional to the observed rate, within the factor and the port's bounds.
  unfoldable pub next_difficulty : ControllerConfig F → F → F → F → F
  unfolding clamp
  next_difficulty cfg target observed current =
      let raw = div target observed in
      let low = div (of_ℕ 1) cfg.max_adjust_factor in
      let high = if lt cfg.max_adjust_factor raw then cfg.max_adjust_factor else raw in
      let factor = if lt high low then low else high in
      let diff = mul current factor in clamp cfg.min_diff cfg.max_diff diff

  -- The percentage by which the observed interval misses the target.
  unfoldable pub deviation : F → F → F
  deviation target observed =
      let d = mul (div (sub observed target) target) (of_ℕ 100) in
      if lt d (of_ℕ 0) then sub (of_ℕ 0) d else d

  unfoldable pub judge_rate : ControllerConfig F → F → F → F → F × Bool
  unfolding deviation next_difficulty
  judge_rate cfg target observed current =
      let new_diff = next_difficulty cfg target observed current in
      if le (deviation target observed) cfg.variance_percent
      then (current, false)
      else if eq new_diff current
      then (current, false)
      else (new_diff, true)

  unfoldable pub retarget : Controller F → ℕ → F → Controller F × (F × Bool)
  unfolding judge_rate seconds
  retarget c now current =
      let elapsed = now - c.last_retarget in
      if ltb elapsed c.cfg.retarget_interval
      then (c, (current, false))
      else let observed =
          if c.shares == 0 then seconds elapsed else div (seconds elapsed) (of_ℕ c.shares) in
        (
          record c { shares = 0; last_retarget = now; window_start = now },
          judge_rate c.cfg (seconds c.cfg.target_interval) observed current,
        )

  clamp-bounded :
      (low high d : F)
      → ((x : F) → lt x x ≡ false)
      → lt high low ≡ false
      → (lt high (clamp low high d) ≡ false) × (lt (clamp low high d) low ≡ false)
  unfolding clamp
  clamp-bounded low high d irreflexive ordered = elim (Bool-cases (lt d low)) [
    | inl small ↦ rw (small, ordered) (ordered, irreflexive low)
    | inr fits ↦ elim (Bool-cases (lt high d)) [
      | inl large ↦ rw (fits, large) (irreflexive high, ordered)
      | inr inside ↦ rw (fits, inside) (inside, fits)
    ]
  ]

  judge_rate-changed :
      (cfg : ControllerConfig F) (target observed current : F)
      → (judge_rate cfg target observed current).1 ≡ true
      → (judge_rate cfg target observed current).0 ≡ next_difficulty cfg target observed current
  unfolding judge_rate
  judge_rate-changed cfg target observed current changed =
      elim (Bool-cases (le (deviation target observed) cfg.variance_percent)) [
        | inl steady ↦ absurd (cc (rw steady at changed))
        | inr off ↦ elim (Bool-cases (eq (next_difficulty cfg target observed current) current)) [
          | inl same ↦ absurd (cc (rw (off, same) at changed))
          | inr other ↦ rw (off, other) refl
        ]
      ]

  -- A changed difficulty is not above the port's maximum and not below its minimum. The float
  -- comparison is taken to be irreflexive, and the minimum not to be above the maximum.
  pub retarget-bounded :
      (c : Controller F) (now : ℕ) (current : F)
      → ((x : F) → lt x x ≡ false)
      → lt c.cfg.max_diff c.cfg.min_diff ≡ false
      → (retarget c now current).1.1 ≡ true
      → (lt c.cfg.max_diff (retarget c now current).1.0 ≡ false)
        × (lt (retarget c now current).1.0 c.cfg.min_diff ≡ false)
  unfolding retarget next_difficulty
  retarget-bounded c now current irreflexive ordered changed =
      elim (Bool-cases (ltb (now - c.last_retarget) c.cfg.retarget_interval)) [
        | inl early ↦ absurd (cc (rw early at changed))
        | inr due ↦
            rw
              (
                due,
                judge_rate-changed c.cfg (seconds c.cfg.target_interval) _ current
                    (rw due at changed),
              )
              (clamp-bounded c.cfg.min_diff c.cfg.max_diff _ irreflexive ordered)
      ]
