-- ===== src/Payouts/Refunding.antt =====
-- A sweep that the wallet refuses gives every account back what it took.
use icminers_stratum_v.Prelude.{
  ℕ, ◌+◌, List, [], ◌∷◌, ◌≡◌, refl, arith, filter, true, false, inl, inr, Option-cases, any, Str,
  Option, str_eq, err, ok, ◌⊎◌, ◌∙◌,
}
use icminers_stratum_v.Storage.Tables.{account_eq, Payment, Account, Db}
use icminers_stratum_v.Storage.Ledger.{
  pay_each, refund_batch, is_sending, in_flight, open_payment, new_payment, commit_batch,
  begin_payout, payable,
}
use icminers_stratum_v.Storage.Ledger.Books.{
  owed, logged, outstanding, IsBalanced, is_reward, has_failed, balance, for_account,
}
use icminers_stratum_v.Prelude.Dict.{Dict, beq_refl}
use icminers_stratum_v.Prelude.Uniq.{Uniq}
use icminers_stratum_v.Payouts.{
  Calls, pass, send_batch, pay, Round, WalletError, begin_payout, answered, is_answered, err, ok,
  send_failed_refunded, outputs_of, settle, left_by,
}
use icminers_stratum_v.Storage.Ledger.Refunds.{
  refund_each_lem, outstanding-fail_all, refund_batch-IsBalanced,
}
use icminers_stratum_v.Storage.Ledger.Laws.{pay_each-IsBalanced, payable_lem}

owed-not_in_flight :
    (batch : Str) (ps : List Payment) (j : Account)
    → any (in_flight batch) ps ≡ false
    → owed j (filter (in_flight batch) ps) ≡ 0
unfolding owed
owed-not_in_flight batch [] j h = refl
owed-not_in_flight batch (p ∷ ps) j h = ground (arith, h, owed-not_in_flight batch ps j)

-- A new payment is in flight under its batch.
owed-new_payment :
    (now : ℕ) (batch : Str) (a : Account) (n : ℕ) (address : Str) (id : ℕ) (ps : List Payment)
    (j : Account)
    → owed j (filter (in_flight batch) (new_payment now batch a n address id ∷ ps))
      ≡ for_account j a n + owed j (filter (in_flight batch) ps)
unfolding owed is_sending
owed-new_payment now batch a n address id ps j = ground (arith, beq_refl batch)

module _ {F : Type 0} where
  logged-reward-pay_each :
      (now : ℕ) (batch : Str) (validate : Str → Option Str) (cs : Dict Account ℕ) (db : Db F)
      (j : Account)
      → logged is_reward j (pay_each now batch validate cs db).0.changes
        ≡ logged is_reward j db.changes
  unfolding pay_each open_payment logged is_reward
  logged-reward-pay_each now batch validate [] db j = refl
  logged-reward-pay_each now batch validate ((a, n) ∷ cs) db j =
      elim (Option-cases (validate a.1)) [
        | inl refused ↦ rw (refused, pay_each) (logged-reward-pay_each now batch validate cs db j)
        | inr (address, e) ↦
            rw (e, pay_each)
              (omega (
                arith,
                logged-reward-pay_each now batch validate cs (open_payment now batch a n address db)
                    j,
              ))
      ]

  -- What a batch adds to the outstanding payments is in flight.
  outstanding-pay_each :
      (now : ℕ) (batch : Str) (validate : Str → Option Str) (cs : Dict Account ℕ) (db : Db F)
      (j : Account)
      → let end = (pay_each now batch validate cs db).0 in
        outstanding j end.payments + owed j (filter (in_flight batch) db.payments)
        ≡ outstanding j db.payments + owed j (filter (in_flight batch) end.payments)
  unfolding pay_each open_payment outstanding has_failed
  outstanding-pay_each now batch validate [] db j = refl
  outstanding-pay_each now batch validate ((a, n) ∷ cs) db j = elim (Option-cases (validate a.1)) [
    | inl refused ↦ rw (refused, pay_each) (outstanding-pay_each now batch validate cs db j)
    | inr (address, e) ↦
        rw (e, pay_each)
          (omega (
            arith,
            owed-new_payment now batch a n address db.next_id db.payments j,
            outstanding-pay_each now batch validate cs (open_payment now batch a n address db) j,
          ))
  ]

  -- After the refund nothing of the batch is outstanding.
  refund-pay_each :
      (batch : Str) (old db : Db F) (j : Account)
      → any (in_flight batch) old.payments ≡ false
      → Uniq db.balances
      → outstanding j db.payments + owed j (filter (in_flight batch) old.payments)
        ≡ outstanding j old.payments + owed j (filter (in_flight batch) db.payments)
      → outstanding j (refund_batch batch db).payments ≡ outstanding j old.payments
  unfolding refund_batch
  refund-pay_each batch old db j fresh u e =
      let ps = filter (in_flight batch) db.payments in
      let after = refund_each_lem ps db j u in
      rw after.1 (
        omega (
          arith,
          e,
          owed-not_in_flight batch old.payments j fresh,
          outstanding-fail_all batch db.payments j,
        ))

  logged-reward-refund :
      (batch : Str) (db : Db F) (j : Account)
      → Uniq db.balances
      → logged is_reward j (refund_batch batch db).changes ≡ logged is_reward j db.changes
  unfolding refund_batch
  logged-reward-refund batch db j u =
      omega (arith, refund_each_lem (filter (in_flight batch) db.payments) db j u)

  -- Books that agree on what is outstanding and on what was earned agree on the balance.
  same_balance :
      (old end : Db F) (j : Account)
      → IsBalanced old
      → IsBalanced end
      → logged is_reward j end.changes ≡ logged is_reward j old.changes
      → outstanding j end.payments ≡ outstanding j old.payments
      → (balance j end ≡ balance j old) × (outstanding j end.payments ≡ outstanding j old.payments)
  unfolding IsBalanced
  same_balance old end j h k earned open_ = (omega (arith, h.1 j, k.1 j, earned, open_), open_)

  refused_batch :
      (calls : Calls) (r : Round) (db : Db F) (e : WalletError) (opened : Db F × List Payment)
      → calls.refund ≡ answered
      → ((m : Dict Str ℕ) → r.send m ≡ err e)
      → (send_batch calls r (commit_batch db opened) ≡ (db, ok tt))
        ⊎ (send_batch calls r (commit_batch db opened)
            ≡ (refund_batch r.batch_id opened.0, err send_failed_refunded))
  unfolding send_batch commit_batch
  refused_batch calls r db e (end, []) c refuses = inl refl
  refused_batch calls r db e (end, p ∷ ps) c refuses =
      inr (rw (refuses (outputs_of [] (p ∷ ps)), settle, c, left_by, is_answered) refl)

  refused_pass :
      (calls : Calls) (r : Round) (db : Db F) (e : WalletError)
      → is_answered calls.stuck ≡ true
      → is_answered calls.begin ≡ true
      → calls.refund ≡ answered
      → ((m : Dict Str ℕ) → r.send m ≡ err e)
      → let end =
          (pay_each r.now r.batch_id r.validate (payable r.pool_id r.min_sats db.balances) db) in
        ((pass calls r db).0 ≡ (db, ok tt))
        ⊎ ((pass calls r db).0 ≡ (refund_batch r.batch_id end.0, err send_failed_refunded))
  unfolding pass pay begin_payout
  refused_pass calls r db e a b c refuses =
      rw (a, b)
        (refused_batch calls r db e
          (pay_each r.now r.batch_id r.validate (payable r.pool_id r.min_sats db.balances) db) c
          refuses)

  -- Where every database call answers and no payment is in flight under the sweep's batch id, a
  -- sweep whose send the wallet refuses leaves each account's balance, and its payments that have
  -- not failed, as they were.
  pub pass_refused :
      (calls : Calls) (r : Round) (db : Db F) (e : WalletError) (j : Account)
      → IsBalanced db
      → any (in_flight r.batch_id) db.payments ≡ false
      → is_answered calls.stuck ≡ true
      → is_answered calls.begin ≡ true
      → calls.refund ≡ answered
      → ((m : Dict Str ℕ) → r.send m ≡ err e)
      → let end = (pass calls r db).0.0 in
        (balance j end ≡ balance j db) × (outstanding j end.payments ≡ outstanding j db.payments)
  unfolding IsBalanced
  pass_refused calls r db e j h fresh a b c refuses =
      let cs = payable r.pool_id r.min_sats db.balances in
      let opened = (pay_each r.now r.batch_id r.validate cs db).0 in
      let picked = payable_lem r.pool_id r.min_sats db.balances h.0 in
      let kept = pay_each-IsBalanced r.now r.batch_id r.validate cs db picked.0 picked.1 h in
      let moved = outstanding-pay_each r.now r.batch_id r.validate cs db j in
      elim (refused_pass calls r db e a b c refuses) [
        | inl idle ↦ rw idle (refl, refl)
        | inr sent_back ↦ rw sent_back (
            same_balance db (refund_batch r.batch_id opened) j h
              (refund_batch-IsBalanced r.batch_id opened kept)
              (logged-reward-refund r.batch_id opened j kept.0
                ∙ logged-reward-pay_each r.now r.batch_id r.validate cs db j)
              (refund-pay_each r.batch_id db opened j fresh kept.0 moved))
      ]
