-- ===== src/Stats/Collector/Bounds.antt =====
-- The number of tracked miners is bounded, and a pool's own counters never miss a share.
use icminers_stratum_v.Prelude.{
  str_eq, ℕ, ◌+◌, ◌<◌, ◌≤◌, ◌≡◌, ◌≢◌, refl, arith, ap, ◌∙◌, [], ◌∷◌, if◌then◌else◌, none, some, inl,
  inr, Bool-cases, Option-cases, leb, Str, length, list_beq, list_beq_iff,
}
use icminers_stratum_v.Prelude.Floats.{Floats}
use icminers_stratum_v.Stats.Collector.{
  cleanup, Dict, record_in_pool, pool_entry, record_share, MinerEntry, find_miner, ShareEvent,
  PoolEntry, ring_add, max_tracked_miners, count_share, new_miner,
}
use icminers_stratum_v.Prelude.Dict.{
  Dict, lookup, lookup-insert_same, length-insert_old, lookup-insert, length-insert, insert,
}
use icminers_stratum_v.Jobs.Submit.{ShareEvent}
use icminers_stratum_v.Stats.Ring.{ring_add}

module _ {F : Type 0} where
  length-cleanup :
      (now : ℕ) (miners : Dict Str (MinerEntry F)) → length (cleanup now miners) ≤ length miners
  unfolding cleanup
  length-cleanup now [] = omega arith
  length-cleanup now ((id, m) ∷ miners) = ground (arith, length-cleanup now miners)

module _ (fl : Floats) where
  open fl use {F}

  length-kept :
      (now : ℕ) (miners : Dict Str (MinerEntry F))
      → length (if leb max_tracked_miners (length miners) then cleanup now miners else miners)
        ≤ length miners
  length-kept now miners = ground (arith, length-cleanup now miners)

  find_miner-bounded :
      (id : Str) (now : ℕ) (g : MinerEntry F → MinerEntry F) (miners : Dict Str (MinerEntry F))
      → length miners ≤ max_tracked_miners
      → length (elim (find_miner fl id now miners).1 [
        | none ↦ (find_miner fl id now miners).0
        | some m ↦ insert id (g m) (find_miner fl id now miners).0
      ])
        ≤ max_tracked_miners
  unfolding find_miner
  find_miner-bounded id now g miners h = elim (Option-cases (lookup id miners)) [
    | inr (m, found) ↦
        rw (found, find_miner)
          (rw (found, find_miner) (omega (arith, length-insert_old id (g m) m miners found, h)))
    | inl new ↦
        let kept = if leb max_tracked_miners (length miners) then cleanup now miners else miners in
        elim (Bool-cases (leb max_tracked_miners (length kept))) [
          | inl full ↦
              rw (new, find_miner, full)
                (rw (new, find_miner) (omega (arith, length-kept now miners, h)))
          | inr room ↦
              let below : length kept < max_tracked_miners = ground (arith, room) in
              rw (new, find_miner, room)
                (rw (new, find_miner)
                  (omega (arith, below, length-insert id (g (new_miner fl)) kept)))
        ]
  ]

  record_in_pool-bounded :
      (ev : ShareEvent F) (now : ℕ) (p : PoolEntry F)
      → length p.miners ≤ max_tracked_miners
      → length (record_in_pool fl ev now p).miners ≤ max_tracked_miners
  unfolding record_in_pool
  record_in_pool-bounded ev now p h =
      find_miner-bounded ev.miner now (count_share fl ev now) p.miners h

  record_in_pool-counted :
      (ev : ShareEvent F) (now : ℕ) (p : PoolEntry F)
      → ((record_in_pool fl ev now p).shares ≡ p.shares + 1)
        × ((record_in_pool fl ev now p).ring ≡ ring_add fl ev.worker_diff now p.ring)
        × ((record_in_pool fl ev now p).blocks ≡ p.blocks)
  unfolding record_in_pool
  record_in_pool-counted ev now p = (refl, refl, refl)

  -- No pool tracks more miners than the cap.
  abbrev pub IsBounded : Dict Str (PoolEntry F) → Type 0
  IsBounded pools =
      (id : Str) (p : PoolEntry F) → lookup id pools ≡ some p → length p.miners ≤ max_tracked_miners

  entry-bounded :
      (id : Str) (pools : Dict Str (PoolEntry F))
      → IsBounded pools
      → length (pool_entry fl id pools).miners ≤ max_tracked_miners
  unfolding pool_entry
  entry-bounded id pools h = elim (Option-cases (lookup id pools)) [
    | inl new ↦ rw (new, pool_entry) (omega arith)
    | inr (p, found) ↦ rw (found, pool_entry) (h id p found)
  ]

  pool_entry-insert :
      (id : Str) (p : PoolEntry F) (pools : Dict Str (PoolEntry F))
      → pool_entry fl id (insert id p pools) ≡ p
  unfolding pool_entry
  pool_entry-insert id p pools = rw (lookup-insert_same id p pools, pool_entry) refl

  -- A share leaves every pool within the cap of tracked miners, and the other pools as they were; its
  -- own pool counts it, in its total and in its ring, whether or not its miner can be tracked.
  pub record_share-IsBounded :
      (ev : ShareEvent F) (now : ℕ) (pools : Dict Str (PoolEntry F))
      → IsBounded pools
      → IsBounded (record_share fl ev now pools)
        × ((other : Str)
            → ev.pool_id ≢ other
            → lookup other (record_share fl ev now pools) ≡ lookup other pools)
        × ((pool_entry fl ev.pool_id (record_share fl ev now pools)).shares
            ≡ (pool_entry fl ev.pool_id pools).shares + 1)
        × ((pool_entry fl ev.pool_id (record_share fl ev now pools)).ring
            ≡ ring_add fl ev.worker_diff now (pool_entry fl ev.pool_id pools).ring)
  unfolding record_share
  record_share-IsBounded ev now pools h =
      let before = pool_entry fl ev.pool_id pools in
      let after = record_in_pool fl ev now before in
      let here = pool_entry-insert ev.pool_id after pools in
      let counted = record_in_pool-counted ev now before in
      (
        λ id p e. elim (Bool-cases (list_beq ev.pool_id id)) [
          | inl same ↦
              let found : after ≡ p =
                ground (arith, e, same, lookup-insert ev.pool_id id after pools) in
              rw (← found) (record_in_pool-bounded ev now before (entry-bounded ev.pool_id pools h))
          | inr apart ↦ h id p (ground (arith, e, apart, lookup-insert ev.pool_id id after pools))
        ],
        λ other d.
            ground
              (arith, d, lookup-insert ev.pool_id other after pools, list_beq_iff ev.pool_id other),
        ap (λ q. q.shares) here ∙ counted.0,
        ap (λ q. q.ring) here ∙ counted.1,
      )
