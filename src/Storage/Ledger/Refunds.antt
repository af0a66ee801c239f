-- ===== src/Storage/Ledger/Refunds.antt =====
-- A refund keeps the ledger's books balanced.
use icminers_stratum_v.Prelude.{◌+◌, List, [], ◌∷◌, ◌≡◌, refl, arith, filter, Str}
use icminers_stratum_v.Storage.Tables.{account_eq, Db, Payment, Account, payout_refund}
use icminers_stratum_v.Storage.Ledger.{
  fail_all, refund_batch, refund_each, is_sending, post, Db, Payment, Account, in_flight,
  payout_refund, get_or,
}
use icminers_stratum_v.Storage.Ledger.Books.{
  owed, outstanding, IsBalanced, has_failed, logged, balance, is_payout, is_reward, is_refund,
}
use icminers_stratum_v.Prelude.Uniq.{Uniq, insert-Uniq}
use icminers_stratum_v.Prelude.Dict.{get_or}
use icminers_stratum_v.Storage.Ledger.Laws.{get_or-credit_account}

pub outstanding-fail_all :
    (batch : Str) (ps : List Payment) (j : Account)
    → outstanding j ps ≡ outstanding j (fail_all batch ps) + owed j (filter (in_flight batch) ps)
unfolding fail_all outstanding owed is_sending has_failed
outstanding-fail_all batch [] j = omega arith
outstanding-fail_all batch (p ∷ ps) j = ground (arith, outstanding-fail_all batch ps j)

module _ {F : Type 0} where
  -- What refunding the given payments changes.
  pub refund_each_lem :
      (ps : List Payment) (db : Db F) (j : Account)
      → Uniq db.balances
      → let end = refund_each ps db in
        Uniq end.balances
        × (end.payments ≡ db.payments)
        × (balance j end ≡ balance j db + owed j ps)
        × (logged is_payout j end.changes ≡ logged is_payout j db.changes)
        × (logged is_reward j end.changes ≡ logged is_reward j db.changes)
        × (logged is_refund j end.changes ≡ logged is_refund j db.changes + owed j ps)
  unfolding refund_each owed post logged is_payout is_reward is_refund
  refund_each_lem [] db j u = (u, refl, omega arith, refl, refl, omega arith)
  refund_each_lem (p ∷ ps) db j u =
      let next = post payout_refund p.account p.amount_sats db in
      let later =
        refund_each_lem ps next j
          (insert-Uniq p.account (get_or p.account 0 db.balances + p.amount_sats) db.balances u) in
      let credited = get_or-credit_account p.account j p.amount_sats db.balances in
      (
        later.0,
        later.1,
        omega (arith, later, credited),
        omega (arith, later),
        omega (arith, later),
        omega (arith, later),
      )

  pub refund_batch-IsBalanced :
      (batch : Str) (db : Db F) → IsBalanced db → IsBalanced (refund_batch batch db)
  unfolding refund_batch IsBalanced
  refund_batch-IsBalanced batch db h =
      let ps = filter (in_flight batch) db.payments in
      (
        (refund_each_lem ps db ([], []) h.0).0,
        λ j.
            let after = refund_each_lem ps db j h.0 in
            (
              omega (arith, h.1 j, after),
              rw after.1 (omega (arith, h.1 j, after, outstanding-fail_all batch db.payments j)),
            ),
      )
