-- ===== src/Stats/Tests.antt =====
-- Shares of one pool around the turn of a minute.
use icminers_stratum_v.Prelude.{
  str_eq, ℕ, ◌+◌, ◌≡◌, ◌≢◌, refl, arith, List, [], ◌∷◌, false, if◌then◌else◌, ltb, Str, codes, ◌/◌,
}
use icminers_stratum_v.Stats.Collector.{record_share, PoolEntry, pool_entry}
use icminers_stratum_v.Stats.Ring.Window.{
  Sample, IsOrdered, EndsBy, add_all, window_from, minute_totals, no_totals,
}
use icminers_stratum_v.Stats.Collector.Bounds.{IsBounded, record_share-IsBounded}
use icminers_stratum_v.Stats.Ring.{ring_sum, new_ring, ring_add, window_minutes}
use icminers_stratum_v.Prelude.Floats.{Ratio, frac, ratios}
use icminers_stratum_v.Prelude.Dict.{lookup, Dict}
use icminers_stratum_v.Jobs.Submit.{ShareEvent}
use icminers_stratum_v.Stats.Ring.Sums.{ring_sum-add_all}

abbrev sample : ℕ → ℕ → Sample Ratio
sample d t = record { diff = frac d 1; at = t }

-- Two shares in the twentieth minute and one in the next.
abbrev samples : List (Sample Ratio)
samples = sample 3 1200 ∷ sample 4 1259 ∷ sample 5 1260 ∷ []

abbrev value : Ratio → ℕ
value r = r.num / r.den

last_minute : value (ring_sum ratios 1 1261 (add_all ratios (new_ring ratios) samples)) ≡ 5
unfolding ring_sum add_all ring_add
last_minute = refl

last_two : value (ring_sum ratios 2 1261 (add_all ratios (new_ring ratios) samples)) ≡ 12
unfolding ring_sum add_all ring_add
last_two = refl

-- One second after two shares, at the turn of the minute, the last minute's sum is zero.
turn_of_minute :
    value (
      ring_sum ratios 1 1260
        (add_all ratios (new_ring ratios) (sample 3 1200 ∷ sample 4 1259 ∷ [])))
    ≡ 0
unfolding ring_sum add_all ring_add
turn_of_minute = refl

samples-IsOrdered : IsOrdered ratios 60 samples
unfolding IsOrdered
samples-IsOrdered = omega arith

samples-EndsBy : EndsBy ratios 1261 samples
unfolding EndsBy
samples-EndsBy = omega arith

ring_sum-add_all_example :
    ring_sum ratios 2 1261 (add_all ratios (new_ring ratios) samples)
    ≡ window_from ratios
        (if ltb window_minutes 2 then window_minutes else 2)
        0
        (1261 / 60)
        (frac 0 1)
        (minute_totals ratios (no_totals ratios) samples)
ring_sum-add_all_example =
    ring_sum-add_all ratios 2 1261 samples (omega arith) samples-IsOrdered samples-EndsBy

abbrev event : ShareEvent Ratio
event = record {
  pool_id = codes "p";
  block_height = 1;
  share_diff = frac 9 1;
  worker_diff = frac 8 1;
  network_difficulty = frac 99 1;
  miner = codes "ann";
  worker = codes "rig";
  user_agent = [];
  ip_address = [];
  created = 0;
  is_block_candidate = false;
}

no_pools : Dict Str (PoolEntry Ratio)
no_pools = []

no_pools-IsBounded : IsBounded ratios no_pools
unfolding no_pools lookup
no_pools-IsBounded id p e = absurd (cc)

record_share-IsBounded_example :
    IsBounded ratios (record_share ratios event 1200 no_pools)
    × ((other : Str)
        → codes "p" ≢ other
        → lookup other (record_share ratios event 1200 no_pools) ≡ lookup other no_pools)
    × ((pool_entry ratios (codes "p") (record_share ratios event 1200 no_pools)).shares
        ≡ (pool_entry ratios (codes "p") no_pools).shares + 1)
    × ((pool_entry ratios (codes "p") (record_share ratios event 1200 no_pools)).ring
        ≡ ring_add ratios (frac 8 1) 1200 (pool_entry ratios (codes "p") no_pools).ring)
record_share-IsBounded_example =
    record_share-IsBounded ratios event 1200 no_pools no_pools-IsBounded
