-- ===== src/Storage/Ledger.antt =====
-- The transactions that move money: `CreditBlockRewards` (internal/storage/postgres/rewards.go),
-- `BeginPayout`, `MarkPaymentsSent`, `RefundBatch` and `StuckBatches` (payouts.go). New rows stand
-- first. Times are seconds.
pub mod Books
pub mod Laws
pub mod Once
pub mod Refunds
use icminers_stratum_v.Prelude.{
  ℕ, ◌+◌, ◌-◌, List, [], ◌∷◌, Bool, true, false, ltb, leb, ◌==◌, if◌then◌else◌, Option, none, some,
  Str, str_eq, list_beq, ◌&&◌, map, filter, any, sort_by, str_lt, Result, ok, err,
}
use icminers_stratum_v.Storage.Tables.{
  account_eq, Account, BlockRow, Usage, Db, PaymentStatus, Payment, block_reward, pool_fee, sending,
  payout, sent, payout_refund, failed,
}
use icminers_stratum_v.Prelude.Dict.{Dict, lookup, insert, get_or}
use icminers_stratum_v.Rewards.Split.{Credit}
use icminers_stratum_v.Rewards.Calculate.{Block}

pub data StoreError : Type 0 where
  no_such_block nothing_to_mark : StoreError

-- `ON CONFLICT DO UPDATE SET amount_sats = balances.amount_sats + EXCLUDED.amount_sats`.
unfoldable pub credit_account : Account → ℕ → Dict Account ℕ → Dict Account ℕ
credit_account a n m = insert a (get_or a 0 m + n) m

-- `UPDATE balances SET amount_sats = amount_sats - n`.
unfoldable pub debit_account : Account → ℕ → Dict Account ℕ → Dict Account ℕ
debit_account a n m = elim (lookup a m) [ none ↦ m | some v ↦ insert a (v - n) m ]

-- The balances of a pool at or above the minimum, ordered by miner.
unfoldable pub payable : Str → ℕ → Dict Account ℕ → Dict Account ℕ
payable pool min_sats m =
    sort_by (λ p q. str_lt p.0.1 q.0.1) (filter (λ p. list_beq p.0.0 pool && leb min_sats p.1) m)

abbrev pub new_payment : ℕ → Str → Account → ℕ → Str → ℕ → Payment
new_payment now batch a n address id = record {
  id = id;
  account = a;
  address = address;
  amount_sats = n;
  status = sending;
  batch_id = batch;
  txid = [];
  created = now;
}

unfoldable pub is_sending : PaymentStatus → Bool
is_sending sending = true
is_sending sent = false
is_sending failed = false

-- `WHERE batch_id = $1 AND status = 'sending'`.
abbrev pub in_flight : Str → Payment → Bool
in_flight batch p = list_beq p.batch_id batch && is_sending p.status

unfoldable pub fail_all : Str → List Payment → List Payment
fail_all batch [] = []
fail_all batch (p ∷ ps) =
    (if in_flight batch p then record p { status = failed } else p) ∷ fail_all batch ps

-- Batches in flight for more than five minutes, each once, in order.
unfoldable pub distinct : List Str → List Str
distinct [] = []
distinct (b ∷ bs) = let rest = distinct bs in if any (list_beq b) rest then rest else b ∷ rest

unfoldable pub mark_sent : Str → Str → List Payment → List Payment
mark_sent batch txid [] = []
mark_sent batch txid (p ∷ ps) =
    (if in_flight batch p then record p { status = sent; txid = txid } else p)
    ∷ mark_sent batch txid ps

module _ {F : Type 0} where
  unfoldable pub find_block : ℕ → List (BlockRow F) → Option (BlockRow F)
  find_block id [] = none
  find_block id (r ∷ rs) = if r.block.id == id then some r else find_block id rs

  unfoldable pub mark_rewarded : ℕ → List (BlockRow F) → List (BlockRow F)
  mark_rewarded id [] = []
  mark_rewarded id (r ∷ rs) =
      (if r.block.id == id then record r { rewarded = true } else r) ∷ mark_rewarded id rs

  -- One amount for an account: the row of the log, and the balance.
  unfoldable pub post : Usage → Account → ℕ → Db F → Db F
  unfolding credit_account
  post u a n db = record db {
    changes = record { account = a; amount_sats = n; usage = u } ∷ db.changes;
    balances = credit_account a n db.balances;
  }

  unfoldable pub post_credits : Str → List Credit → Db F → Db F
  unfolding post
  post_credits pool [] db = db
  post_credits pool (c ∷ cs) db =
      post_credits pool cs (post block_reward (pool, c.miner) c.amount_sats db)

  unfoldable pub log_fee : Str → ℕ → Db F → Db F
  log_fee pool fee db =
      if ltb 0 fee
      then record db {
        changes = record { account = (pool, []); amount_sats = fee; usage = pool_fee } ∷ db.changes;
      }
      else db

  unfoldable pub credit_block_rewards : Db F → Block F → List Credit → ℕ → Result StoreError (Db F)
  unfolding find_block mark_rewarded post_credits log_fee
  credit_block_rewards db b cs fee = elim (find_block b.id db.blocks) [
    | none ↦ err no_such_block
    | some row ↦
        if row.rewarded
        then ok db
        else let paid = log_fee b.pool_id fee (post_credits b.pool_id cs db) in
          ok (record paid { blocks = mark_rewarded b.id paid.blocks })
  ]

  -- Deducts one balance, logs it and opens its payment.
  unfoldable pub open_payment : ℕ → Str → Account → ℕ → Str → Db F → Db F
  unfolding debit_account
  open_payment now batch a n address db = record db {
    balances = debit_account a n db.balances;
    changes = record { account = a; amount_sats = n; usage = payout } ∷ db.changes;
    payments = new_payment now batch a n address db.next_id ∷ db.payments;
    next_id = db.next_id + 1;
  }

  unfoldable pub pay_each :
      ℕ → Str → (Str → Option Str) → Dict Account ℕ → Db F → Db F × List Payment
  unfolding open_payment
  pay_each now batch validate [] db = (db, [])
  pay_each now batch validate ((a, n) ∷ cs) db = elim (validate a.1) [
    | none ↦ pay_each now batch validate cs db
    | some address ↦
        let rest = pay_each now batch validate cs (open_payment now batch a n address db) in
        (rest.0, new_payment now batch a n address db.next_id ∷ rest.1)
  ]

  -- An empty batch is rolled back.
  unfoldable pub commit_batch : Db F → Db F × List Payment → Db F × List Payment
  commit_batch db (end, []) = (db, [])
  commit_batch db (end, p ∷ ps) = (end, p ∷ ps)

  unfoldable pub begin_payout : ℕ → Str → ℕ → Str → (Str → Option Str) → Db F → Db F × List Payment
  unfolding payable pay_each commit_batch
  begin_payout now pool min_sats batch validate db =
      commit_batch db (pay_each now batch validate (payable pool min_sats db.balances) db)

  unfoldable pub mark_payments_sent : Str → Str → Db F → Result StoreError (Db F)
  unfolding mark_sent
  mark_payments_sent batch txid db =
      if any (in_flight batch) db.payments
      then ok (record db { payments = mark_sent batch txid db.payments })
      else err nothing_to_mark

  unfoldable pub refund_each : List Payment → Db F → Db F
  unfolding post
  refund_each [] db = db
  refund_each (p ∷ ps) db = refund_each ps (post payout_refund p.account p.amount_sats db)

  unfoldable pub refund_batch : Str → Db F → Db F
  unfolding refund_each fail_all
  refund_batch batch db =
      let refunded = refund_each (filter (in_flight batch) db.payments) db in
      record refunded { payments = fail_all batch refunded.payments }

  unfoldable pub stuck_batches : ℕ → Str → Db F → List Str
  unfolding distinct
  stuck_batches now pool db = sort_by str_lt (
      distinct (
        map (λ p. p.batch_id)
          (filter
            (λ p. list_beq p.account.0 pool && (is_sending p.status && ltb (p.created + 300) now))
            db.payments)))
