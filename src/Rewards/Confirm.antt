-- ===== src/Rewards/Confirm.antt =====
-- internal/rewards/confirm.go: `CheckBlock`, which compares a block with the chain. The chain's
-- answers and the comparison of hashes without case are arguments.
use icminers_stratum_v.Prelude.{
  ℕ, ◌+◌, ◌-◌, Bool, not, ltb, leb, if◌then◌else◌, Option, none, some, Str, Result, ok, ◌>>=◌,
}
use icminers_stratum_v.Prelude.Floats.{Floats}

pub record ConfirmOptions : Type 0 where
  pub maturity_depth : ℕ
  pub orphan_depth : ℕ

-- A depth that is not positive is 0.
unfoldable pub defaults : ConfirmOptions → ConfirmOptions
defaults o = record {
  maturity_depth = if leb o.maturity_depth 0 then 100 else o.maturity_depth;
  orphan_depth = if leb o.orphan_depth 0 then 12 else o.orphan_depth;
}

pub data Status : Type 0 where
  pending confirmed orphaned : Status

pub record ConfirmationStatus (F : Type 0) : Type 0 where
  pub status : Status
  pub confirmations : ℕ
  pub progress : F

-- The daemon's calls: the tip's height, and the hash at a height unless it is past the tip.
pub record ChainView (E : Type 0) : Type 0 where
  pub tip_height : Result E ℕ
  pub block_hash_at : ℕ → Result E (Option Str)

module _ (fl : Floats) (equal_fold : Str → Str → Bool) where
  open fl use {F, of_ℕ, div, lt}

  abbrev still_pending : ConfirmationStatus F
  still_pending = record { status = pending; confirmations = 0; progress = of_ℕ 0 }

  -- A block that is on the best chain.
  unfoldable pub on_chain : ConfirmOptions → ℕ → ConfirmationStatus F
  on_chain o conf =
      let progress = div (of_ℕ conf) (of_ℕ o.maturity_depth) in
      let capped = if lt (of_ℕ 1) progress then of_ℕ 1 else progress in
      if leb o.maturity_depth conf
      then record { status = confirmed; confirmations = conf; progress = of_ℕ 1 }
      else record { status = pending; confirmations = conf; progress = capped }

  -- The verdict on the hash that the chain has at the block's height.
  unfoldable pub classify : ConfirmOptions → ℕ → ℕ → Str → Option Str → ConfirmationStatus F
  unfolding on_chain
  classify o tip height our_hash none = still_pending
  classify o tip height our_hash (some chain_hash) =
      if not (equal_fold chain_hash our_hash)
      then (if leb o.orphan_depth (tip - height)
          then record { status = orphaned; confirmations = 0; progress = of_ℕ 0 }
          else still_pending)
      else on_chain o (tip - height + 1)

  unfoldable pub check_block :
      {E : Type 0} → ChainView E → ℕ → Str → ConfirmOptions → Result E (ConfirmationStatus F)
  unfolding classify defaults
  check_block chain height our_hash opts = chain.tip_height >>= λ tip.
      if ltb tip height
      then ok still_pending
      else chain.block_hash_at height >>= λ found.
          ok (classify (defaults opts) tip height our_hash found)
