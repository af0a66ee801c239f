-- ===== src/Payouts/Books.antt =====
-- What every sequence of rewards, payout sweeps and operators' repairs leaves in the ledger.
use icminers_stratum_v.Prelude.{
  ℕ, ◌+◌, List, [], ◌∷◌, ◌≡◌, refl, arith, inl, inr, Bool-cases, subst, Str, Result, ok,
  Result-cases, any,
}
use icminers_stratum_v.Payouts.{
  pay, pass, left_by, send_batch, settle, Call, Str, mark_payments_sent, Calls, answered, Payment,
  ok, Result, Round, failed_before, WalletError, outputs_of, is_answered, failed_after, err,
  refund_batch,
}
use icminers_stratum_v.Storage.Ledger.Books.{
  IsBalanced, outstanding, logged, is_reward, balance, has_failed,
}
use icminers_stratum_v.Storage.Tables.{Db, Account, Payment}
use icminers_stratum_v.Storage.Ledger.Laws.{
  credit_block_rewards-IsBalanced, begin_payout-IsBalanced,
}
use icminers_stratum_v.Rewards.Calculate.{Block}
use icminers_stratum_v.Storage.Ledger.{
  mark_payments_sent, credit_block_rewards, refund_batch, mark_sent, is_sending, in_flight,
}
use icminers_stratum_v.Rewards.Split.{Credit}
use icminers_stratum_v.Storage.Ledger.Refunds.{refund_batch-IsBalanced}
use icminers_stratum_v.Prelude.Uniq.{Uniq}
use icminers_stratum_v.Prelude.Dict.{lookup}

outstanding-mark_sent :
    (batch txid : Str) (ps : List Payment) (j : Account)
    → outstanding j (mark_sent batch txid ps) ≡ outstanding j ps
unfolding outstanding mark_sent is_sending has_failed
outstanding-mark_sent batch txid [] j = refl
outstanding-mark_sent batch txid (p ∷ ps) j = ground (arith, outstanding-mark_sent batch txid ps j)

module _ {F : Type 0} where
  with_sent-IsBalanced :
      (batch txid : Str) (db : Db F)
      → IsBalanced db
      → IsBalanced (record db { payments = mark_sent batch txid db.payments })
  unfolding IsBalanced
  with_sent-IsBalanced batch txid db h = (
    h.0,
    λ j. (
      omega (arith, h.1 j),
      omega (arith, h.1 j, outstanding-mark_sent batch txid db.payments j),
    ),
  )

  left_by-IsBalanced :
      (c : Call) (old new : Db F) → IsBalanced old → IsBalanced new → IsBalanced (left_by c old new)
  unfolding left_by
  left_by-IsBalanced answered old new h k = k
  left_by-IsBalanced failed_before old new h k = h
  left_by-IsBalanced failed_after old new h k = k

  pub mark_payments_sent-IsBalanced :
      (batch txid : Str) (db end : Db F)
      → IsBalanced db
      → mark_payments_sent batch txid db ≡ ok end
      → IsBalanced end
  unfolding mark_payments_sent
  mark_payments_sent-IsBalanced batch txid db end h done =
      elim (Bool-cases (any (in_flight batch) db.payments)) [
        | inr idle ↦ absurd (cc (rw (idle, mark_payments_sent) at done))
        | inl busy ↦
            subst IsBalanced (cc (rw (busy, mark_payments_sent) at done))
              (with_sent-IsBalanced batch txid db h)
      ]

  settle-IsBalanced :
      (calls : Calls) (batch : Str) (answer : Result WalletError Str) (db : Db F)
      → IsBalanced db
      → IsBalanced (settle calls batch answer db).0
  unfolding settle
  settle-IsBalanced calls batch (err e) db h =
      left_by-IsBalanced calls.refund db (refund_batch batch db) h
        (refund_batch-IsBalanced batch db h)
  settle-IsBalanced calls batch (ok txid) db h =
      elim (Result-cases (mark_payments_sent batch txid db)) [
        | inr (e, failed_mark) ↦ rw (failed_mark, settle) h
        | inl (end, done) ↦
            rw (done, settle)
              (left_by-IsBalanced calls.mark db end h
                (mark_payments_sent-IsBalanced batch txid db end h done))
      ]

  send_batch-IsBalanced :
      (calls : Calls) (r : Round) (opened : Db F × List Payment)
      → IsBalanced opened.0
      → IsBalanced (send_batch calls r opened).0
  unfolding send_batch
  send_batch-IsBalanced calls r (db, []) h = h
  send_batch-IsBalanced calls r (db, p ∷ ps) h =
      settle-IsBalanced calls r.batch_id (r.send (outputs_of [] (p ∷ ps))) db h

  pay-IsBalanced :
      (calls : Calls) (r : Round) (db : Db F) → IsBalanced db → IsBalanced (pay calls r db).0
  unfolding pay
  pay-IsBalanced calls r db h =
      let opened = begin_payout-IsBalanced r.now r.pool_id r.min_sats r.batch_id r.validate db h in
      elim (Bool-cases (is_answered calls.begin)) [
        | inl e ↦ rw (e, pay) (send_batch-IsBalanced calls r _ opened)
        | inr e ↦ rw (e, pay) (left_by-IsBalanced calls.begin db _ h opened)
      ]

  pub pass-IsBalanced :
      (calls : Calls) (r : Round) (db : Db F) → IsBalanced db → IsBalanced (pass calls r db).0.0
  unfolding pass
  pass-IsBalanced calls r db h = elim (Bool-cases (is_answered calls.stuck)) [
    | inl e ↦ rw (e, pass) (pay-IsBalanced calls r db h)
    | inr e ↦ rw (e, pass) h
  ]

  -- What can happen to the ledger: a block's credits, a sweep, an operator's repair of a batch.
  pub data Step : Db F → Db F → Type 0 where
    credited :
        {db end : Db F} (b : Block F) (cs : List Credit) (fee : ℕ)
        → credit_block_rewards db b cs fee ≡ ok end
        → Step db end
    swept : {db : Db F} (calls : Calls) (r : Round) → Step db (pass calls r db).0.0
    refunded : {db : Db F} (batch : Str) → Step db (refund_batch batch db)
    confirmed_sent :
        {db end : Db F} (batch txid : Str) → mark_payments_sent batch txid db ≡ ok end → Step db end

  pub data Steps : Db F → Db F → Type 0 where
    done : {db : Db F} → Steps db db
    then : {db middle end : Db F} → Step db middle → Steps middle end → Steps db end

  Step-IsBalanced : {db end : Db F} → Step db end → IsBalanced db → IsBalanced end
  Step-IsBalanced (credited b cs fee e) h = credit_block_rewards-IsBalanced _ _ b cs fee h e
  Step-IsBalanced (swept calls r) h = pass-IsBalanced calls r _ h
  Step-IsBalanced (refunded batch) h = refund_batch-IsBalanced batch _ h
  Step-IsBalanced (confirmed_sent batch txid e) h = mark_payments_sent-IsBalanced batch txid _ _ h e

  Steps-IsBalanced : {db end : Db F} → Steps db end → IsBalanced db → IsBalanced end
  Steps-IsBalanced done h = h
  Steps-IsBalanced (then s rest) h = Steps-IsBalanced rest (Step-IsBalanced s h)

  pub empty-IsBalanced :
      (db : Db F) → IsBalanced (record db { balances = []; changes = []; payments = [] })
  unfolding IsBalanced Uniq lookup
  empty-IsBalanced db = (tt, λ j. (refl, refl))

  -- From an empty ledger, after any sequence of rewards, sweeps (whatever the wallet and the
  -- database answer) and repairs, what an account was credited for blocks is its balance plus its
  -- payments that have not failed.
  pub conservation :
      (start end : Db F) (a : Account)
      → Steps (record start { balances = []; changes = []; payments = [] }) end
      → logged is_reward a end.changes ≡ balance a end + outstanding a end.payments
  unfolding IsBalanced
  conservation start end a run = omega (arith, (Steps-IsBalanced run (empty-IsBalanced start)).1 a)
