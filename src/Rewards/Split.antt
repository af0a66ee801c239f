-- ===== src/Rewards/Split.antt =====
-- internal/rewards/rewards.go: `ApplyFee`, and `distribute`, which splits an amount by share work.
pub mod Laws
use icminers_stratum_v.Prelude.{
  ℕ, zero, suc, ◌+◌, ◌-◌, ◌%◌, List, [], ◌∷◌, map, Bool, not, ltb, leb, if◌then◌else◌, length, Str,
  ◌||◌, filter, sort_by, sum, str_lt,
}
use icminers_stratum_v.Prelude.Floats.{Floats}

pub record Credit : Type 0 where
  pub miner : Str
  pub amount_sats : ℕ

pub record MinerWork (F : Type 0) : Type 0 where
  pub miner : Str
  pub diff_sum : F

abbrev pub amounts : List Credit → List ℕ
amounts = map (λ c. c.amount_sats)

-- `credits[i].AmountSats++`.
unfoldable bump : ℕ → List Credit → List Credit
bump i [] = []
bump zero (c ∷ cs) = record c { amount_sats = c.amount_sats + 1 } ∷ cs
bump (suc i) (c ∷ cs) = c ∷ bump i cs

-- The loop over the remainder: one round for each base unit that is not assigned.
unfoldable hand_out : ℕ → ℕ → List Credit → List Credit
unfolding bump
hand_out zero i cs = cs
hand_out (suc rest) i cs = hand_out rest ((i + 1) % length cs) (bump i cs)

-- The slice without its zero amounts.
unfoldable drop_zeros : List Credit → List Credit
drop_zeros cs = filter (λ c. ltb 0 c.amount_sats) cs

module _ (fl : Floats) where
  open fl use {F, of_ℕ, add, mul, div, lt, le, eq, trunc}

  -- What the miners share, and the pool's fee.
  unfoldable pub apply_fee : ℕ → F → ℕ × ℕ
  apply_fee reward fee_percent =
      if le fee_percent (of_ℕ 0) || not (ltb 0 reward)
      then (reward, 0)
      else if le (of_ℕ 100) fee_percent
      then (0, reward)
      else let fee = trunc (div (mul (of_ℕ reward) fee_percent) (of_ℕ 100)) in (reward - fee, fee)

  abbrev is_positive : MinerWork F → Bool
  is_positive w = lt (of_ℕ 0) w.diff_sum

  unfoldable add_up : F → List (MinerWork F) → F
  add_up total [] = total
  add_up total (w ∷ ws) = add_up (if is_positive w then add total w.diff_sum else total) ws

  -- The sum of the positive work, from the left.
  unfoldable pub total_work : List (MinerWork F) → F
  unfolding add_up
  total_work ws = add_up (of_ℕ 0) ws

  -- The order of the payees: more work first, then by name.
  unfoldable pays_before : MinerWork F → MinerWork F → Bool
  pays_before v w =
      if eq v.diff_sum w.diff_sum then str_lt v.miner w.miner else lt w.diff_sum v.diff_sum

  -- A miner's amount, rounded down.
  unfoldable pub floor_share : ℕ → F → MinerWork F → ℕ
  floor_share amount total w = trunc (mul (of_ℕ amount) (div w.diff_sum total))

  unfoldable pub floors : ℕ → F → List (MinerWork F) → List Credit
  unfolding floor_share
  floors amount total ws =
      map (λ w. record { miner = w.miner; amount_sats = floor_share amount total w }) ws

  unfoldable pub distribute : ℕ → List (MinerWork F) → List Credit
  unfolding total_work pays_before floors hand_out drop_zeros
  distribute amount ws =
      let total = total_work ws in
      if not (ltb 0 amount) || leb (length ws) 0 || le total (of_ℕ 0)
      then []
      else let cs = floors amount total (sort_by pays_before (filter is_positive ws)) in
        drop_zeros (hand_out (amount - sum (amounts cs)) 0 cs)
