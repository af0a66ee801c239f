-- ===== src/Storage/Ledger/Once.antt =====
-- A block is paid once.
use icminers_stratum_v.Prelude.{
  ℕ, List, [], ◌∷◌, ◌≡◌, refl, true, inl, inr, Bool-cases, Option-cases, some, ok, Str, ltb, ◌==◌,
  subst, ap, ◌∙◌, Result,
}
use icminers_stratum_v.Storage.Ledger.{
  credit_block_rewards, find_block, post_credits, log_fee, mark_rewarded, Db, BlockRow, Credit,
  Block, post, block_reward,
}
use icminers_stratum_v.Storage.Tables.{Db, BlockRow, block_reward}
use icminers_stratum_v.Rewards.Split.{Credit}
use icminers_stratum_v.Rewards.Calculate.{Block}

unwrap : {E A : Type 0} {a b : A} → ◌≡◌ {A = Result E A} (ok a) (ok b) → a ≡ b
unwrap h = cc

module _ {F : Type 0} where
  -- The row that a transaction has marked.
  find_block-mark_rewarded :
      (id : ℕ) (rows : List (BlockRow F)) {row : BlockRow F}
      → find_block id rows ≡ some row
      → (paid : BlockRow F) × (find_block id (mark_rewarded id rows) ≡ some paid)
        × (paid.rewarded ≡ true)
  unfolding find_block mark_rewarded
  find_block-mark_rewarded id [] h = absurd (cc)
  find_block-mark_rewarded id (r ∷ rs) h = elim (Bool-cases (r.block.id == id)) [
    | inl same ↦ (record r { rewarded = true }, rw (same, same) refl, refl)
    | inr other ↦
        let there = find_block-mark_rewarded id rs (rw other at h) in
        (there.0, rw (other, other) there.1, there.2)
  ]

  blocks-post_credits :
      (pool : Str) (cs : List Credit) (db : Db F) → (post_credits pool cs db).blocks ≡ db.blocks
  unfolding post_credits
  blocks-post_credits pool [] db = refl
  blocks-post_credits pool (c ∷ cs) db =
      blocks-post_credits pool cs (post block_reward (pool, c.miner) c.amount_sats db)

  blocks-log_fee : (pool : Str) (fee : ℕ) (db : Db F) → (log_fee pool fee db).blocks ≡ db.blocks
  unfolding log_fee
  blocks-log_fee pool fee db = elim (Bool-cases (ltb 0 fee)) [
    | inl e ↦ rw e refl
    | inr e ↦ rw e refl
  ]

  already :
      (db : Db F) (row : BlockRow F) (b : Block F) (cs : List Credit) (fee : ℕ)
      → find_block b.id db.blocks ≡ some row
      → row.rewarded ≡ true
      → credit_block_rewards db b cs fee ≡ ok db
  unfolding credit_block_rewards
  already db row b cs fee found before = rw (found, credit_block_rewards, before) refl

  paid_once :
      (db end : Db F) (b : Block F) (cs : List Credit) (fee : ℕ)
      → credit_block_rewards db b cs fee ≡ ok end
      → (paid : BlockRow F) × (find_block b.id end.blocks ≡ some paid) × (paid.rewarded ≡ true)
  unfolding credit_block_rewards
  paid_once db end b cs fee done = elim (Option-cases (find_block b.id db.blocks)) [
    | inl gone ↦ absurd (cc (rw (gone, credit_block_rewards) at done))
    | inr (row, found) ↦ elim (Bool-cases row.rewarded) [
      | inl before ↦ (
        row,
        subst (λ d. find_block b.id d.blocks ≡ some row)
            (unwrap (rw (found, credit_block_rewards, before) at done)) found,
        before,
      )
      | inr first ↦
          let posted = post_credits b.pool_id cs db in
          let rows = blocks-log_fee b.pool_id fee posted ∙ blocks-post_credits b.pool_id cs db in
          let there = find_block-mark_rewarded b.id db.blocks found in
          (
            there.0,
            subst (λ d. find_block b.id d.blocks ≡ some there.0)
                (unwrap (rw (found, credit_block_rewards, first) at done)) (rw rows there.1),
            there.2,
          )
    ]
  ]

  -- Once a block's rewards are credited, crediting it again, with whatever credits and fee, changes
  -- nothing.
  pub credit_block_rewards-twice :
      (db end : Db F) (b again : Block F) (cs ds : List Credit) (fee gee : ℕ)
      → credit_block_rewards db b cs fee ≡ ok end
      → again.id ≡ b.id
      → credit_block_rewards end again ds gee ≡ ok end
  credit_block_rewards-twice db end b again cs ds fee gee done same =
      let paid = paid_once db end b cs fee done in
      already end paid.0 again ds gee (ap (λ id. find_block id end.blocks) same ∙ paid.1) paid.2
