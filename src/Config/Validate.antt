-- ===== src/Config/Validate.antt =====
-- internal/config/config.go: `Validate`, check by check. `lower` and `upper` change the letters of
-- ASCII; `is_blank` tests for white space of ASCII.
use icminers_stratum_v.Prelude.{
  ℕ, ◌+◌, ◌-◌, List, [], ◌∷◌, map, Bool, not, ltb, leb, ◌==◌, ◌&&◌, ◌||◌, if◌then◌else◌, length,
  Str, codes, list_beq, any, Result, ok, ◌>>=◌, ◌>>◌, fail_if,
}
use icminers_stratum_v.Prelude.Floats.{Floats}
use icminers_stratum_v.Config.{PoolConfig, CoinConfig, PortConfig, Config}

pub data ConfigError : Type 0 where
  invalid_mode region_required empty_pool_id duplicate_pool_id invalid_payment_mode : ConfigError
  empty_symbol invalid_port duplicate_port port_without_pool unknown_pool_id : ConfigError
  invalid_vardiff fixed_difficulty unknown_coin dsn_required bind_required : ConfigError
  urls_required master_needs_postgres master_needs_nats regional_needs_nats : ConfigError

abbrev pub is_empty : Str → Bool
is_empty s = leb (length s) 0

abbrev lower_byte : ℕ → ℕ
lower_byte b = if leb b'A' b && leb b b'Z' then b + 32 else b

abbrev upper_byte : ℕ → ℕ
upper_byte b = if leb b'a' b && leb b b'z' then b - 32 else b

abbrev pub upper : Str → Str
upper = map upper_byte

abbrev pub lower : Str → Str
lower = map lower_byte

abbrev is_blank : Str → Bool
is_blank s = not (any (λ b. not (b == 32 || (leb 9 b && leb b 13))) s)

abbrev is_mode : Str → Str → Bool
is_mode m s = list_beq m s

-- A Go map to Booleans is the list of its keys.
abbrev pub seen : Str → List Str → Bool
seen s ss = any (list_beq s) ss

abbrev pub seen_port : ℕ → List ℕ → Bool
seen_port n ns = any (λ m. n == m) ns

unfoldable pub check_mode : Str → Str → Result ConfigError (Unit {0})
check_mode mode region =
    fail_if
      (not (
        list_beq mode (codes "all-in-one")
        || (list_beq mode (codes "master") || list_beq mode (codes "regional"))))
      invalid_mode
    >> fail_if (list_beq mode (codes "regional") && is_empty region) region_required

unfoldable pub known_mode : Str → Bool
known_mode m =
    is_empty m
    || (list_beq m (codes "pplns") || (list_beq m (codes "prop") || list_beq m (codes "solo")))

unfoldable pub check_coins : List Str → List CoinConfig → Result ConfigError (List Str)
check_coins symbols [] = ok symbols
check_coins symbols (c ∷ cs) =
    fail_if (is_empty c.symbol) empty_symbol >> check_coins (upper c.symbol ∷ symbols) cs

module _ (fl : Floats) where
  open fl use {F, of_ℕ, lt, le}

  -- The pools; the result is the list of their ids.
  unfoldable pub check_pools : List Str → List (PoolConfig F) → Result ConfigError (List Str)
  unfolding known_mode
  check_pools ids [] = ok ids
  check_pools ids (p ∷ ps) =
      fail_if (is_empty p.id) empty_pool_id
      >> fail_if (seen p.id ids) duplicate_pool_id
      >> fail_if (not (known_mode (lower p.payment_mode))) invalid_payment_mode
      >> check_pools (p.id ∷ ids) ps

  unfoldable pub check_difficulty : PortConfig F → Result ConfigError (Unit {0})
  check_difficulty p =
      if p.var_diff
      then fail_if (le p.min_diff (of_ℕ 0) || (le p.max_diff (of_ℕ 0) || lt p.max_diff p.min_diff))
          invalid_vardiff
      else fail_if (le p.difficulty (of_ℕ 0)) fixed_difficulty

  unfoldable pub check_ports :
      List Str → List ℕ → List (PortConfig F) → Result ConfigError (Unit {0})
  unfolding check_difficulty
  check_ports ids ports [] = ok tt
  check_ports ids ports (p ∷ ps) =
      fail_if (leb p.port 0 || ltb 65535 p.port) invalid_port
      >> fail_if (seen_port p.port ports) duplicate_port
      >> fail_if (is_empty p.pool_id) port_without_pool
      >> fail_if (not (seen p.pool_id ids)) unknown_pool_id
      >> check_difficulty p
      >> check_ports ids (p.port ∷ ports) ps

  unfoldable pub check_references : List Str → List (PoolConfig F) → Result ConfigError (Unit {0})
  check_references symbols [] = ok tt
  check_references symbols (p ∷ ps) =
      fail_if (not (is_empty p.coin_symbol) && not (seen (upper p.coin_symbol) symbols))
        unknown_coin
      >> check_references symbols ps

  unfoldable pub check_services : Config F → Result ConfigError (Unit {0})
  check_services c =
      fail_if (c.postgres.enabled && is_blank c.postgres.dsn) dsn_required
      >> fail_if (c.api.enabled && is_blank c.api.bind) bind_required
      >> fail_if (c.nats.enabled && leb (length c.nats.urls) 0) urls_required
      >> fail_if (list_beq c.mode (codes "master") && not c.postgres.enabled) master_needs_postgres
      >> fail_if (list_beq c.mode (codes "master") && not c.nats.enabled) master_needs_nats
      >> fail_if (list_beq c.mode (codes "regional") && not c.nats.enabled) regional_needs_nats

  unfoldable pub validate : Config F → Result ConfigError (Unit {0})
  unfolding check_mode check_pools check_coins check_ports check_references check_services
  validate c =
      check_mode c.mode c.region
      >> (check_pools [] c.pools >>= λ ids. check_coins [] c.coins >>= λ symbols.
          check_ports ids [] c.stratum.ports
          >> (if leb (length c.coins) 0 then ok tt else check_references symbols c.pools)
          >> check_services c)
