-- ===== src/Payouts.antt =====
-- internal/payouts/payouts.go: one payout sweep over a pool, and the daemon's wallet. The clock, the
-- batch id, the address check and the daemon's answer are arguments; a database that fails does so
-- before or after a transaction, never inside it.
mod Tests
pub mod Books
pub mod Refunding
use icminers_stratum_v.Prelude.{
  ℕ, ◌+◌, List, [], ◌∷◌, Bool, true, false, leb, if◌then◌else◌, Option, none, some, Str, Result, ok,
  err, str_eq,
}
use icminers_stratum_v.Prelude.Dict.{Dict, insert, get_or}
use icminers_stratum_v.Storage.Tables.{Db, Payment}
use icminers_stratum_v.Storage.Ledger.{
  begin_payout, mark_payments_sent, refund_batch, stuck_batches,
}

pub data PayoutError : Type 0 where
  begin_failed stuck_query_failed send_failed_refunded refund_failed sent_but_not_marked :
      PayoutError

pub data WalletError : Type 0 where
  empty_outputs non_positive_amount call_failed empty_txid : WalletError

-- The amounts by address: `outputs[pay.Address] += pay.AmountSats`.
unfoldable pub outputs_of : Dict Str ℕ → List Payment → Dict Str ℕ
outputs_of m [] = m
outputs_of m (p ∷ ps) = outputs_of (insert p.address (get_or p.address 0 m + p.amount_sats) m) ps

-- `SendMany`: the daemon, given the outputs, answers with a transaction id. `is_blank` says whether
-- an id is only white space.
unfoldable pub any_zero : Dict Str ℕ → Bool
any_zero [] = false
any_zero ((a, n) ∷ m) = if leb n 0 then true else any_zero m

module _ (is_blank : Str → Bool) where
  unfoldable pub accept_txid : Option Str → Result WalletError Str
  accept_txid none = err call_failed
  accept_txid (some txid) = if is_blank txid then err empty_txid else ok txid

  unfoldable pub send_many : (Dict Str ℕ → Option Str) → Dict Str ℕ → Result WalletError Str
  unfolding any_zero accept_txid
  send_many call [] = err empty_outputs
  send_many call (o ∷ os) =
      if any_zero (o ∷ os) then err non_positive_amount else accept_txid (call (o ∷ os))

-- A database call that answers, or whose connection fails before or after the database commits it.
pub data Call : Type 0 where
  answered failed_before failed_after : Call

pub record Calls : Type 0 where
  pub stuck : Call
  pub begin : Call
  pub refund : Call
  pub mark : Call

unfoldable pub is_answered : Call → Bool
is_answered answered = true
is_answered failed_before = false
is_answered failed_after = false

-- What a call leaves, of the value before it and the value after it.
unfoldable pub left_by {ℓ} : {A : Type ℓ} → Call → A → A → A
left_by answered old new = new
left_by failed_before old new = old
left_by failed_after old new = new

-- One pool's options, with the moment and the batch id of the pass.
pub record Round : Type 0 where
  pub pool_id : Str
  pub min_sats : ℕ
  pub now : ℕ
  pub batch_id : Str
  pub validate : Str → Option Str
  pub send : Dict Str ℕ → Result WalletError Str

module _ {F : Type 0} where
  -- What follows the wallet's answer.
  unfoldable pub settle :
      Calls → Str → Result WalletError Str → Db F → Db F × Result PayoutError (Unit {0})
  unfolding is_answered left_by
  settle calls batch (err e) db = (
    left_by calls.refund db (refund_batch batch db),
    err (if is_answered calls.refund then send_failed_refunded else refund_failed),
  )
  settle calls batch (ok txid) db = elim (mark_payments_sent batch txid db) [
    | err e ↦ (db, err sent_but_not_marked)
    | ok end ↦ (
      left_by calls.mark db end,
      (if is_answered calls.mark then ok tt else err sent_but_not_marked),
    )
  ]

  unfoldable pub send_batch :
      Calls → Round → Db F × List Payment → Db F × Result PayoutError (Unit {0})
  unfolding settle outputs_of
  send_batch calls r (db, []) = (db, ok tt)
  send_batch calls r (db, p ∷ ps) = settle calls r.batch_id (r.send (outputs_of [] (p ∷ ps))) db

  unfoldable pub pay : Calls → Round → Db F → Db F × Result PayoutError (Unit {0})
  unfolding send_batch
  pay calls r db =
      let opened = begin_payout r.now r.pool_id r.min_sats r.batch_id r.validate db in
      if is_answered calls.begin
      then send_batch calls r opened
      else (left_by calls.begin db opened.0, err begin_failed)

  -- A sweep; with it, the batches that an operator has to look at.
  unfoldable pub pass : Calls → Round → Db F → (Db F × Result PayoutError (Unit {0})) × List Str
  unfolding pay
  pass calls r db =
      if is_answered calls.stuck
      then (pay calls r db, stuck_batches r.now r.pool_id db)
      else ((db, err stuck_query_failed), [])
