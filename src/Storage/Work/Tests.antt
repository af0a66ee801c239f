-- ===== src/Storage/Work/Tests.antt =====
-- Pages of one row over a pool's shares.
use icminers_stratum_v.Prelude.{
  ℕ, List, [], ◌∷◌, ◌≡◌, refl, arith, some, codes, map, not, ltb, leb, filter, sort_by, list_beq,
  ◌*◌,
}
use icminers_stratum_v.Prelude.Dict.{insert, lookup}
use icminers_stratum_v.Prelude.Floats.{ratios, frac, Ratio}
use icminers_stratum_v.Storage.Work.{
  Share, work_backward, count_rows, newest_first, no_work, walk_back, last_created,
}
use icminers_stratum_v.Storage.Work.Paging.{work_backward-count_rows, IsDescending}

abbrev share_at : ℕ → ℕ → Share Ratio
share_at miner t = record {
  pool_id = codes "btc";
  miner = miner ∷ [];
  difficulty = frac 1 1;
  created = t;
}

abbrev two_shares : List (Share Ratio)
two_shares = share_at 1 10 ∷ share_at 2 11 ∷ []

leb-ltb : (a b : ℕ) → leb b a ≡ not (ltb a b)
leb-ltb a b = ground arith

work_backward-count_rows_example :
    work_backward ratios 1 (codes "btc") two_shares 12 (frac 5 1)
    ≡ some (
        map
          (λ p. record { miner = p.0; diff_sum = p.1 })
          (count_rows ratios
            (frac 5 1)
            (no_work ratios)
            (filter (λ r. leb r.created 12) (newest_first (codes "btc") two_shares))).sums)
unfolding newest_first sort_by list_beq IsDescending
work_backward-count_rows_example =
    work_backward-count_rows ratios 1 (codes "btc") two_shares 12 (frac 5 1)
      (λ x y. leb-ltb (x.num * y.den) (y.num * x.den)) (omega arith) ((omega arith, tt), (tt, tt))

-- Of two shares of the same time, a page of one row shows only the first.
equal_times :
    work_backward ratios 1 (codes "btc") (share_at 1 10 ∷ share_at 2 10 ∷ []) 12 (frac 5 1)
    ≡ some (record { miner = 1 ∷ []; diff_sum = frac 1 1 } ∷ [])
unfolding work_backward walk_back count_rows newest_first sort_by list_beq last_created insert
    lookup
equal_times = refl
