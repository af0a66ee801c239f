-- ===== src/Vardiff/Tests.antt =====
-- A retarget after a minute with one share.
use icminers_stratum_v.Prelude.{ℕ, ◌≡◌, refl, arith, false, ltb, ◌*◌}
use icminers_stratum_v.Prelude.Floats.{ratios, frac, Ratio}
use icminers_stratum_v.Vardiff.Controller.{Controller, ControllerConfig, retarget, retarget-bounded}

abbrev config : ControllerConfig Ratio
config = record {
  min_diff = frac 1 1;
  max_diff = frac 8 1;
  target_interval = 10000000000;
  retarget_interval = 60000000000;
  variance_percent = frac 30 1;
  max_adjust_factor = frac 4 1;
}

abbrev busy : Controller Ratio
busy = record { cfg = config; window_start = 0; shares = 1; last_retarget = 0 }

ltb_irrefl : (n : ℕ) → ltb n n ≡ false
ltb_irrefl n = ground arith

retarget-bounded_example :
    (ratios.lt config.max_diff (retarget ratios busy 60000000000 (frac 4 1)).1.0 ≡ false)
    × (ratios.lt (retarget ratios busy 60000000000 (frac 4 1)).1.0 config.min_diff ≡ false)
unfolding retarget
retarget-bounded_example =
    retarget-bounded ratios busy 60000000000 (frac 4 1) (λ x. ltb_irrefl (x.num * x.den)) refl refl
