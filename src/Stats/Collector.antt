-- ===== src/Stats/Collector.antt =====
-- `Collector`: the pools, and the miners of each.
pub mod Bounds
use icminers_stratum_v.Prelude.{
  str_eq, ℕ, ◌+◌, ◌-◌, ◌*◌, List, [], ◌∷◌, ltb, leb, if◌then◌else◌, length, Option, none, some, Str,
}
use icminers_stratum_v.Prelude.Dict.{Dict, lookup, insert}
use icminers_stratum_v.Prelude.Floats.{Floats}
use icminers_stratum_v.Stats.Ring.{Bucket, new_ring, ring_add, ring_sum, hashrate, window_minutes}
use icminers_stratum_v.Jobs.Submit.{ShareEvent}

abbrev pub max_tracked_miners : ℕ
max_tracked_miners = 10000

pub record MinerEntry (F : Type 0) : Type 0 where
  pub ring : List (Bucket F)
  pub shares : ℕ
  pub last_share : ℕ
  pub workers : Dict Str ℕ

pub record PoolEntry (F : Type 0) : Type 0 where
  pub ring : List (Bucket F)
  pub shares : ℕ
  pub blocks : ℕ
  pub miners : Dict Str (MinerEntry F)

pub record PoolStats (F : Type 0) : Type 0 where
  pub shares : ℕ
  pub blocks : ℕ
  pub miners : ℕ
  pub hashrate1m : F
  pub hashrate15m : F

pub record MinerStats (F : Type 0) : Type 0 where
  pub shares : ℕ
  pub hashrate1m : F
  pub hashrate15m : F
  pub last_share : ℕ
  pub workers : Dict Str ℕ

module _ {F : Type 0} where
  -- The miners whose last share is not before the cutoff; the clock is past the first half hour.
  unfoldable pub cleanup : ℕ → Dict Str (MinerEntry F) → Dict Str (MinerEntry F)
  cleanup now [] = []
  cleanup now ((id, m) ∷ miners) =
      let rest = cleanup now miners in
      if ltb m.last_share (now - 2 * window_minutes * 60) then rest else (id, m) ∷ rest

module _ (fl : Floats) where
  open fl use {F, of_ℕ}

  abbrev pub new_pool : PoolEntry F
  new_pool = record { ring = new_ring fl; shares = 0; blocks = 0; miners = [] }

  abbrev pub new_miner : MinerEntry F
  new_miner = record { ring = new_ring fl; shares = 0; last_share = 0; workers = [] }

  -- The entry of a pool, a new one if there is none.
  unfoldable pub pool_entry : Str → Dict Str (PoolEntry F) → PoolEntry F
  pool_entry id pools = elim (lookup id pools) [ none ↦ new_pool | some p ↦ p ]

  unfoldable pub count_share : ShareEvent F → ℕ → MinerEntry F → MinerEntry F
  unfolding ring_add
  count_share ev now m = record {
    ring = ring_add fl ev.worker_diff now m.ring;
    shares = m.shares + 1;
    last_share = now;
    workers = insert ev.worker now m.workers;
  }

  -- The miner's entry among those that are tracked, and where to put it; none if there is no room.
  unfoldable pub find_miner :
      Str → ℕ → Dict Str (MinerEntry F) → Dict Str (MinerEntry F) × Option (MinerEntry F)
  unfolding cleanup
  find_miner id now miners =
      let kept = if leb max_tracked_miners (length miners) then cleanup now miners else miners in
      elim (lookup id miners) [
        | some m ↦ (miners, some m)
        | none ↦ (kept, (if leb max_tracked_miners (length kept) then none else some new_miner))
      ]

  unfoldable pub record_in_pool : ShareEvent F → ℕ → PoolEntry F → PoolEntry F
  unfolding find_miner count_share ring_add
  record_in_pool ev now p =
      let (miners, found) = find_miner ev.miner now p.miners in
      record p {
        shares = p.shares + 1;
        ring = ring_add fl ev.worker_diff now p.ring;
        miners = elim found [
          | none ↦ miners
          | some m ↦ insert ev.miner (count_share ev now m) miners
        ];
      }

  unfoldable pub record_share : ShareEvent F → ℕ → Dict Str (PoolEntry F) → Dict Str (PoolEntry F)
  unfolding record_in_pool pool_entry
  record_share ev now pools =
      insert ev.pool_id (record_in_pool ev now (pool_entry ev.pool_id pools)) pools

  unfoldable pub record_block : Str → Dict Str (PoolEntry F) → Dict Str (PoolEntry F)
  unfolding pool_entry
  record_block id pools =
      let p = pool_entry id pools in insert id (record p { blocks = p.blocks + 1 }) pools

  unfoldable pub pool_stats : Str → ℕ → Dict Str (PoolEntry F) → PoolStats F
  unfolding ring_sum hashrate
  pool_stats id now pools = elim (lookup id pools) [
    | none ↦ record {
      shares = 0;
      blocks = 0;
      miners = 0;
      hashrate1m = of_ℕ 0;
      hashrate15m = of_ℕ 0;
    }
    | some p ↦ record {
      shares = p.shares;
      blocks = p.blocks;
      miners = length p.miners;
      hashrate1m = hashrate fl (ring_sum fl 1 now p.ring) 60;
      hashrate15m = hashrate fl (ring_sum fl window_minutes now p.ring) (window_minutes * 60);
    }
  ]

  unfoldable pub stats_of : ℕ → MinerEntry F → MinerStats F
  unfolding ring_sum hashrate
  stats_of now m = record {
    shares = m.shares;
    hashrate1m = hashrate fl (ring_sum fl 1 now m.ring) 60;
    hashrate15m = hashrate fl (ring_sum fl window_minutes now m.ring) (window_minutes * 60);
    last_share = m.last_share;
    workers = m.workers;
  }

  unfoldable pub miner_stats : Str → Str → ℕ → Dict Str (PoolEntry F) → Option (MinerStats F)
  unfolding stats_of
  miner_stats id miner now pools = elim (lookup id pools) [
    | none ↦ none
    | some p ↦ elim (lookup miner p.miners) [ none ↦ none | some m ↦ some (stats_of now m) ]
  ]
