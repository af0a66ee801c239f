-- ===== src/Storage/Ledger/Laws.antt =====
-- Every transaction of the ledger keeps its books balanced.
use icminers_stratum_v.Prelude.{
  ℕ, ◌+◌, ◌-◌, List, [], ◌∷◌, ◌≡◌, refl, arith, Bool-cases, inl, inr, Option-cases, some, none, Str,
  ltb, ok, list_beq, ◌⊎◌, subst, sym, Option, str_lt, ◌&&◌, leb,
}
use icminers_stratum_v.Storage.Ledger.{
  post_credits, credit_account, debit_account, credit_block_rewards, open_payment, log_fee, Account,
  post, Db, Dict, block_reward, Credit, Block, lookup, account_eq, BlockRow, pay_each, begin_payout,
  find_block, payable, mark_rewarded, commit_batch, Payment,
}
use icminers_stratum_v.Storage.Ledger.Books.{
  IsBalanced, for_account, is_reward, is_payout, is_refund, has_failed,
}
use icminers_stratum_v.Storage.Tables.{Account, Db, block_reward, account_eq, BlockRow, Payment}
use icminers_stratum_v.Prelude.Dict.{lookup, Dict, get_or, lookup-insert, insert, beq_refl}
use icminers_stratum_v.Rewards.Split.{Credit}
use icminers_stratum_v.Rewards.Calculate.{Block}
use icminers_stratum_v.Prelude.Uniq.{insert-Uniq, Uniq, Covered, selection-Uniq}

pub get_or-credit_account :
    (a j : Account) (n : ℕ) (m : Dict Account ℕ)
    → get_or j 0 (credit_account a n m) ≡ get_or j 0 m + for_account j a n
unfolding credit_account
get_or-credit_account a j n m =
    rw (get_or, lookup-insert a j (get_or a 0 m + n) m) (ground (arith, account_eq.beq_iff a j))

get_or-debit_account :
    (a j : Account) (n : ℕ) (m : Dict Account ℕ)
    → lookup a m ≡ some n
    → get_or j 0 (debit_account a n m) + for_account j a n ≡ get_or j 0 m
unfolding debit_account
get_or-debit_account a j n m h =
    rw (get_or, h, debit_account, lookup-insert a j (n - n) m)
      (ground (arith, h, account_eq.beq_iff a j))

debit_account-Uniq :
    (a : Account) (n : ℕ) (m : Dict Account ℕ) → Uniq m → Uniq (debit_account a n m)
unfolding debit_account
debit_account-Uniq a n m u = elim (Option-cases (lookup a m)) [
  | inl gone ↦ rw (gone, debit_account) u
  | inr (v, found) ↦ rw (found, debit_account) (insert-Uniq a (v - n) m u)
]

-- A debit leaves the other rows of a selection where they are.
debit_account-Covered :
    (a : Account) (n : ℕ) (cs m : Dict Account ℕ)
    → lookup a cs ≡ none
    → lookup a m ≡ some n
    → Covered cs m
    → Covered cs (debit_account a n m)
unfolding Covered debit_account
debit_account-Covered a n cs m fresh found h j v there =
    rw (found, debit_account, lookup-insert a j (n - n) m)
      (ground (arith, fresh, there, h j v there, account_eq.beq_iff a j))

Covered-tail :
    (a : Account) (n : ℕ) (cs m : Dict Account ℕ)
    → lookup a cs ≡ none
    → Covered ((a, n) ∷ cs) m
    → (lookup a m ≡ some n) × Covered cs m
unfolding Covered lookup
Covered-tail a n cs m fresh h = (
  h a n (rw (beq_refl a) refl),
  λ j v there. h j v (ground (arith, fresh, there, account_eq.beq_iff a j)),
)

-- What a sweep selects are rows of the table, each once.
pub payable_lem :
    (pool : Str) (min_sats : ℕ) (m : Dict Account ℕ)
    → Uniq m
    → Uniq (payable pool min_sats m) × Covered (payable pool min_sats m) m
unfolding payable
payable_lem pool min_sats m u =
    selection-Uniq (λ p q. str_lt p.0.1 q.0.1) (λ p. list_beq p.0.0 pool && leb min_sats p.1) m u

module _ {F : Type 0} where
  -- A credit to an account.
  reward-IsBalanced :
      (a : Account) (n : ℕ) (db : Db F) → IsBalanced db → IsBalanced (post block_reward a n db)
  unfolding IsBalanced post lookup is_reward insert list_beq is_payout is_refund
  reward-IsBalanced a n db h = (
    insert-Uniq a (get_or a 0 db.balances + n) db.balances h.0,
    λ j. (omega (arith, h.1 j, get_or-credit_account a j n db.balances), omega (arith, h.1 j)),
  )

  post_credits-IsBalanced :
      (pool : Str) (cs : List Credit) (db : Db F)
      → IsBalanced db
      → IsBalanced (post_credits pool cs db)
  unfolding post_credits
  post_credits-IsBalanced pool [] db h = h
  post_credits-IsBalanced pool (c ∷ cs) db h =
      post_credits-IsBalanced pool cs (post block_reward (pool, c.miner) c.amount_sats db)
        (reward-IsBalanced (pool, c.miner) c.amount_sats db h)

  log_fee-IsBalanced :
      (pool : Str) (fee : ℕ) (db : Db F) → IsBalanced db → IsBalanced (log_fee pool fee db)
  unfolding log_fee IsBalanced lookup is_reward is_payout is_refund
  log_fee-IsBalanced pool fee db h = elim (Bool-cases (ltb 0 fee)) [
    | inl some_fee ↦ rw some_fee (h.0, λ j. (omega (arith, h.1 j), omega (arith, h.1 j)))
    | inr no_fee ↦ rw no_fee h
  ]

  -- A block's credits are posted once: a rewarded block changes nothing.
  pub credit_block_rewards-cases :
      (db end : Db F) (b : Block F) (cs : List Credit) (fee : ℕ)
      → credit_block_rewards db b cs fee ≡ ok end
      → (end ≡ db)
        ⊎ ((rows : List (BlockRow F)) × (end
              ≡ record (log_fee b.pool_id fee (post_credits b.pool_id cs db)) { blocks = rows }))
  unfolding credit_block_rewards
  credit_block_rewards-cases db end b cs fee done =
      elim (Option-cases (find_block b.id db.blocks)) [
        | inl gone ↦ absurd (cc (rw (gone, credit_block_rewards) at done))
        | inr (row, found) ↦ elim (Bool-cases row.rewarded) [
          | inl before ↦ inl (cc (rw (found, credit_block_rewards, before) at done))
          | inr first ↦ inr (
            mark_rewarded b.id (log_fee b.pool_id fee (post_credits b.pool_id cs db)).blocks,
            cc (rw (found, credit_block_rewards, first) at done),
          )
        ]
      ]

  pub with_blocks-IsBalanced :
      (rows : List (BlockRow F)) (db : Db F)
      → IsBalanced db
      → IsBalanced (record db { blocks = rows })
  unfolding IsBalanced
  with_blocks-IsBalanced rows db h = (h.0, λ j. (omega (arith, h.1 j), omega (arith, h.1 j)))

  pub credit_block_rewards-IsBalanced :
      (db end : Db F) (b : Block F) (cs : List Credit) (fee : ℕ)
      → IsBalanced db
      → credit_block_rewards db b cs fee ≡ ok end
      → IsBalanced end
  credit_block_rewards-IsBalanced db end b cs fee h done =
      elim (credit_block_rewards-cases db end b cs fee done) [
        | inl same ↦ subst IsBalanced (sym same) h
        | inr (rows, e) ↦ subst IsBalanced (sym e) (
            with_blocks-IsBalanced rows _
              (log_fee-IsBalanced b.pool_id fee _ (post_credits-IsBalanced b.pool_id cs db h)))
      ]

  open_payment-IsBalanced :
      (now : ℕ) (batch : Str) (a : Account) (n : ℕ) (address : Str) (db : Db F)
      → lookup a db.balances ≡ some n
      → IsBalanced db
      → IsBalanced (open_payment now batch a n address db)
  unfolding open_payment IsBalanced lookup is_reward is_payout is_refund list_beq has_failed
  open_payment-IsBalanced now batch a n address db e h = (
    debit_account-Uniq a n db.balances h.0,
    λ j. (omega (arith, h.1 j, get_or-debit_account a j n db.balances e), omega (arith, h.1 j)),
  )

  pub pay_each-IsBalanced :
      (now : ℕ) (batch : Str) (validate : Str → Option Str) (cs : Dict Account ℕ) (db : Db F)
      → Uniq cs
      → Covered cs db.balances
      → IsBalanced db
      → IsBalanced (pay_each now batch validate cs db).0
  unfolding pay_each Uniq
  pay_each-IsBalanced now batch validate [] db u c h = h
  pay_each-IsBalanced now batch validate ((a, n) ∷ cs) db u c h =
      let here = Covered-tail a n cs db.balances u.0 c in
      elim (Option-cases (validate a.1)) [
        | inl refused ↦
            rw (refused, pay_each) (pay_each-IsBalanced now batch validate cs db u.1 here.1 h)
        | inr (address, e) ↦
            rw (e, pay_each)
              (pay_each-IsBalanced now batch validate cs (open_payment now batch a n address db) u.1
                (debit_account-Covered a n cs db.balances u.0 here.0 here.1)
                (open_payment-IsBalanced now batch a n address db here.0 h))
      ]

  commit_batch-IsBalanced :
      (db : Db F) (opened : Db F × List Payment)
      → IsBalanced db
      → IsBalanced opened.0
      → IsBalanced (commit_batch db opened).0
  unfolding commit_batch
  commit_batch-IsBalanced db (end, []) h k = h
  commit_batch-IsBalanced db (end, p ∷ ps) h k = k

  pub begin_payout-IsBalanced :
      (now : ℕ) (pool : Str) (min_sats : ℕ) (batch : Str) (validate : Str → Option Str) (db : Db F)
      → IsBalanced db
      → IsBalanced (begin_payout now pool min_sats batch validate db).0
  unfolding begin_payout IsBalanced
  begin_payout-IsBalanced now pool min_sats batch validate db h =
      let picked = payable_lem pool min_sats db.balances h.0 in
      commit_batch-IsBalanced db _ h (
        pay_each-IsBalanced now batch validate (payable pool min_sats db.balances) db picked.0
          picked.1 h)
