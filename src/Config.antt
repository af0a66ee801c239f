-- ===== src/Config.antt =====
-- internal/config/config.go: the configuration, its defaults and its validation. A number or a
-- duration that is not positive is 0; a pointer to a Boolean is an option. JSON and the logging
-- section are left out.
mod Tests
pub mod Validate
pub mod Laws
use icminers_stratum_v.Prelude.{
  ℕ, List, [], ◌∷◌, map, Bool, true, false, leb, if◌then◌else◌, length, Option, none, some, Str,
  codes, list_beq,
}
use icminers_stratum_v.Prelude.Floats.{Floats}

pub record NatsConfig : Type 0 where
  pub enabled : Bool
  pub urls : List Str
  pub spool_dir : Str
  pub spool_max_bytes : ℕ

pub record ApiConfig : Type 0 where
  pub enabled : Bool
  pub bind : Str
  pub admin_token : Str

pub record PortConfig (F : Type 0) : Type 0 where
  pub port : ℕ
  pub pool_id : Str
  pub var_diff : Bool
  pub difficulty : F
  pub min_diff : F
  pub max_diff : F

pub record StratumConfig (F : Type 0) : Type 0 where
  pub bind_address : Str
  pub ports : List (PortConfig F)
  pub max_conn_per_ip : ℕ
  pub read_timeout : ℕ
  pub max_line_bytes : ℕ
  pub var_diff_target_interval : ℕ
  pub var_diff_retarget_interval : ℕ
  pub var_diff_variance_percent : F

pub record PoolConfig (F : Type 0) : Type 0 where
  pub id : Str
  pub enabled : Bool
  pub coin_symbol : Str
  pub payment_mode : Str
  pub initial_state : Str
  pub maintenance_message : Str
  pub pool_fee_percent : F
  pub address : Str
  pub pplns_factor : F
  pub reward_interval : ℕ
  pub minimum_payment_sats : ℕ
  pub payout_interval : ℕ
  pub subtract_fee_from_miners : Option Bool
  pub coinbase_tag : Str
  pub template_poll_interval : ℕ
  pub error_backoff : ℕ

pub record PostgresConfig : Type 0 where
  pub enabled : Bool
  pub dsn : Str
  pub share_queue_size : ℕ
  pub share_batch_size : ℕ
  pub share_flush_interval : ℕ
  pub share_wal_path : Str
  pub share_wal_max_bytes : ℕ

pub record CoinConfig : Type 0 where
  pub symbol : Str
  pub name : Str
  pub algo : Str
  pub rpc_url : Str
  pub network : Str
  pub maturity_depth : ℕ
  pub orphan_depth : ℕ
  pub random_x_epoch_duration : ℕ

pub record Config (F : Type 0) : Type 0 where
  pub mode : Str
  pub region : Str
  pub node_id : Str
  pub stratum : StratumConfig F
  pub pools : List (PoolConfig F)
  pub coins : List CoinConfig
  pub postgres : PostgresConfig
  pub api : ApiConfig
  pub nats : NatsConfig

-- `if n <= 0 { n = d }`
abbrev or_default : ℕ → ℕ → ℕ
or_default n d = if leb n 0 then d else n

-- `if s == "" { s = d }`
abbrev or_text : Str → Str → Str
or_text s d = if leb (length s) 0 then d else s

module _ (fl : Floats) where
  open fl use {F, of_ℕ, le}

  unfoldable pub pool_defaults : PoolConfig F → PoolConfig F
  pool_defaults p = record p {
    pplns_factor = if le p.pplns_factor (of_ℕ 0) then of_ℕ 2 else p.pplns_factor;
    reward_interval = or_default p.reward_interval 30000000000;
    minimum_payment_sats = or_default p.minimum_payment_sats 100000;
    payout_interval = or_default p.payout_interval 600000000000;
    subtract_fee_from_miners = elim p.subtract_fee_from_miners [
      | none ↦ some true
      | some b ↦ some b
    ];
    initial_state = or_text p.initial_state (codes "active");
    template_poll_interval = or_default p.template_poll_interval 500000000;
    error_backoff = or_default p.error_backoff 15000000000;
  }

  unfoldable pub coin_defaults : CoinConfig → CoinConfig
  coin_defaults c = record c {
    maturity_depth = or_default c.maturity_depth 100;
    orphan_depth = or_default c.orphan_depth 12;
  }

  unfoldable pub stratum_defaults : StratumConfig F → StratumConfig F
  stratum_defaults s = record s {
    var_diff_target_interval = or_default s.var_diff_target_interval 10000000000;
    var_diff_retarget_interval = or_default s.var_diff_retarget_interval 60000000000;
    var_diff_variance_percent =
        if le s.var_diff_variance_percent (of_ℕ 0) then of_ℕ 30 else s.var_diff_variance_percent;
    bind_address = or_text s.bind_address (codes "0.0.0.0");
    max_line_bytes = or_default s.max_line_bytes 65536;
    read_timeout = or_default s.read_timeout 600000000000;
  }

  unfoldable pub apply_defaults : Config F → Config F
  unfolding pool_defaults coin_defaults stratum_defaults
  apply_defaults c = record c {
    stratum = stratum_defaults c.stratum;
    pools = map pool_defaults c.pools;
    coins = map coin_defaults c.coins;
    mode = or_text c.mode (codes "all-in-one");
  }

module _ {F : Type 0} where
  -- `PoolByID`: the first pool with the id.
  unfoldable pub pool_by_id : Str → List (PoolConfig F) → Option (PoolConfig F)
  pool_by_id id [] = none
  pool_by_id id (p ∷ ps) = if list_beq p.id id then some p else pool_by_id id ps
