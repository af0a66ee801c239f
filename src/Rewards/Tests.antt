-- ===== src/Rewards/Tests.antt =====
-- A block's reward split between three miners.
use icminers_stratum_v.Prelude.{List, [], ◌∷◌, ◌≡◌, refl, arith, codes, sum, All, ◌<◌, max, sort_by}
use icminers_stratum_v.Prelude.Floats.{ratios, frac, Ratio}
use icminers_stratum_v.Rewards.Split.{distribute, MinerWork, total_work, amounts}
use icminers_stratum_v.Rewards.Split.Laws.{floor_sum, sum-distribute}

abbrev work : List (MinerWork Ratio)
work =
    record { miner = codes "ann"; diff_sum = frac 1 1 }
    ∷ record { miner = codes "bob"; diff_sum = frac 2 1 }
    ∷ record { miner = codes "cyd"; diff_sum = frac 0 1 }
    ∷ []

sum-distribute_example :
    (sum (amounts (distribute ratios 100 work)) ≡ max 100 (floor_sum ratios 100 work))
    × All (λ c. 0 < c.amount_sats) (distribute ratios 100 work)
unfolding total_work
sum-distribute_example = sum-distribute ratios 100 work refl (omega arith) refl

-- The remainder goes to the one with most work.
shares_of_100 :
    distribute ratios 100 work
    ≡ record { miner = codes "bob"; amount_sats = 67 }
      ∷ record { miner = codes "ann"; amount_sats = 33 }
      ∷ []
unfolding distribute sort_by
shares_of_100 = refl
