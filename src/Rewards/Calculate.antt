-- ===== src/Rewards/Calculate.antt =====
-- internal/rewards/rewards.go: the calculators SOLO, PROP and PPLNS over the queries of a share
-- source, and the choice by a pool's payment mode.
use icminers_stratum_v.Prelude.{
  ℕ, List, [], ◌∷◌, not, ltb, leb, if◌then◌else◌, length, Option, none, some, Str, Result, ok, err,
  codes, str_eq, list_beq, ◌&&◌, ◌>>=◌,
}
use icminers_stratum_v.Prelude.Floats.{Floats}
use icminers_stratum_v.Rewards.Split.{Credit, MinerWork, distribute}

pub record Block (F : Type 0) : Type 0 where
  pub id : ℕ
  pub pool_id : Str
  pub height : ℕ
  pub miner : Str
  pub hash : Str
  pub reward_sats : ℕ
  pub network_difficulty : F
  pub created : ℕ

-- What can go wrong: an error of the source, or a block that no one can be paid for.
pub data RewardError : Type 0 where
  source_failed no_finder no_network_difficulty unknown_mode : RewardError

-- The interface `ShareSource`.
pub record ShareSource (F : Type 0) : Type 0 where
  pub work_between : Str → ℕ → ℕ → Result RewardError (List (MinerWork F))
  pub work_backward : Str → ℕ → F → Result RewardError (List (MinerWork F))
  pub previous_block_time : Str → ℕ → Result RewardError (Option ℕ)

-- The implementations of `Calculator`.
pub data Calculator (F : Type 0) : Type 0 where
  solo prop : Calculator F
  pplns : F → Calculator F

module _ (fl : Floats) where
  open fl use {F, of_ℕ, mul, le}

  unfoldable pub calculate_solo : Block F → ℕ → Result RewardError (List Credit)
  calculate_solo b amount =
      if leb (length b.miner) 0
      then err no_finder
      else if not (ltb 0 amount)
      then ok []
      else ok (record { miner = b.miner; amount_sats = amount } ∷ [])

  -- The finder is paid where the work gives nothing.
  unfoldable pub or_finder : Block F → ℕ → List Credit → Result RewardError (List Credit)
  unfolding calculate_solo
  or_finder b amount cs =
      if leb (length cs) 0 && ltb 0 amount then calculate_solo b amount else ok cs

  unfoldable pub calculate_prop : ShareSource F → Block F → ℕ → Result RewardError (List Credit)
  unfolding or_finder
  calculate_prop src b amount = src.previous_block_time b.pool_id b.created >>= λ prev.
      src.work_between b.pool_id (elim prev [ none ↦ 0 | some t ↦ t ]) b.created >>= λ ws.
      or_finder b amount (distribute fl amount ws)

  unfoldable pub calculate_pplns :
      ShareSource F → F → Block F → ℕ → Result RewardError (List Credit)
  unfolding or_finder
  calculate_pplns src factor b amount =
      let target = mul (if le factor (of_ℕ 0) then of_ℕ 2 else factor) b.network_difficulty in
      if le target (of_ℕ 0)
      then err no_network_difficulty
      else src.work_backward b.pool_id b.created target >>= λ ws.
          or_finder b amount (distribute fl amount ws)

  unfoldable pub calculate :
      ShareSource F → Calculator F → Block F → ℕ → Result RewardError (List Credit)
  unfolding calculate_solo calculate_prop calculate_pplns
  calculate src solo b amount = calculate_solo b amount
  calculate src prop b amount = calculate_prop src b amount
  calculate src (pplns factor) b amount = calculate_pplns src factor b amount

unfoldable pub for_payment_mode : {F : Type 0} → Str → F → Result RewardError (Calculator F)
for_payment_mode mode factor =
    if list_beq mode (codes "solo")
    then ok solo
    else if list_beq mode (codes "prop")
    then ok prop
    else if list_beq mode (codes "pplns")
    then ok (pplns factor)
    else err unknown_mode
