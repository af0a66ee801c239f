-- ===== src/Config/Tests.antt =====
-- A configuration with one pool and one port.
use icminers_stratum_v.Prelude.{[], ◌≡◌, refl, codes, true, none, err, list_beq}
use icminers_stratum_v.Prelude.Floats.{frac, Ratio}
use icminers_stratum_v.Config.{PoolConfig, PortConfig}
use icminers_stratum_v.Rewards.Calculate.{for_payment_mode, unknown_mode}

abbrev pool : PoolConfig Ratio
pool = record {
  id = codes "p";
  enabled = true;
  coin_symbol = codes "btc";
  payment_mode = codes "PROP";
  initial_state = [];
  maintenance_message = [];
  pool_fee_percent = frac 1 1;
  address = [];
  pplns_factor = frac 2 1;
  reward_interval = 0;
  minimum_payment_sats = 0;
  payout_interval = 0;
  subtract_fee_from_miners = none;
  coinbase_tag = [];
  template_poll_interval = 0;
  error_backoff = 0;
}

abbrev port : PortConfig Ratio
port = record {
  port = 3333;
  pool_id = codes "p";
  var_diff = true;
  difficulty = frac 1 1;
  min_diff = frac 1 1;
  max_diff = frac 8 1;
}

-- The rewards know no calculator for a mode that the validation passes.
no_calculator : for_payment_mode pool.payment_mode (frac 2 1) ≡ err unknown_mode
unfolding for_payment_mode list_beq
no_calculator = refl
