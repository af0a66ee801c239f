-- ===== src/Storage/Tables.antt =====
-- The rows that the daemon keeps: blocks, balances, the log of balance changes, and payments
-- (internal/storage/postgres/rewards.go, payouts.go and sharewriter.go).
use icminers_stratum_v.Prelude.{ℕ, List, Bool, Str, str_eq, list_beq, list_beq_iff, ◌&&◌, Eq, arith}
use icminers_stratum_v.Prelude.Dict.{Dict}
use icminers_stratum_v.Rewards.Calculate.{Block}
use icminers_stratum_v.Rewards.Confirm.{Status}

-- The key of a balance: pool and miner.
abbrev pub Account : Type 0
Account = Str × Str

instance abbrev pub account_eq : Eq Account
account_eq = record {
  beq = λ a b. list_beq a.0 b.0 && list_beq a.1 b.1;
  beq_iff = λ a b. ground (arith, list_beq_iff a.0 b.0, list_beq_iff a.1 b.1);
}

pub record BlockRow (F : Type 0) : Type 0 where
  pub block : Block F
  pub status : Status
  pub rewarded : Bool
  pub confirmations : ℕ
  pub progress : F

-- The usages of a balance change; a payout's amount is stored with a minus sign.
pub data Usage : Type 0 where
  block_reward pool_fee payout payout_refund : Usage

pub record Change : Type 0 where
  pub account : Account
  pub amount_sats : ℕ
  pub usage : Usage

pub data PaymentStatus : Type 0 where
  sending sent failed : PaymentStatus

pub record Payment : Type 0 where
  pub id : ℕ
  pub account : Account
  pub address : Str
  pub amount_sats : ℕ
  pub status : PaymentStatus
  pub batch_id : Str
  pub txid : Str
  pub created : ℕ

pub record Db (F : Type 0) : Type 0 where
  pub blocks : List (BlockRow F)
  pub balances : Dict Account ℕ
  pub changes : List Change
  pub payments : List Payment
  pub next_id : ℕ
