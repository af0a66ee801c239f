-- ===== src/Rewards/Processor.antt =====
-- internal/rewards/processor.go: one sweep over a pool's blocks. The chain and the share queries are
-- arguments; the database answers every call.
use icminers_stratum_v.Prelude.{
  ℕ, List, [], ◌∷◌, Bool, ltb, if◌then◌else◌, Option, none, some, Str, ok, err, inl, inr,
  Result-cases, Bool-cases,
}
use icminers_stratum_v.Prelude.Floats.{Floats}
use icminers_stratum_v.Rewards.Confirm.{
  pending, confirmed, orphaned, ConfirmationStatus, ChainView, ConfirmOptions, check_block, Status,
}
use icminers_stratum_v.Rewards.Calculate.{RewardError, ShareSource, Calculator, Block, calculate}
use icminers_stratum_v.Storage.Blocks.{
  update_block_confirmation, confirmed_unrewarded, unconfirmed_blocks,
}
use icminers_stratum_v.Storage.Ledger.{StoreError, credit_block_rewards}
use icminers_stratum_v.Storage.Tables.{Db}
use icminers_stratum_v.Storage.Ledger.Books.{IsBalanced}
use icminers_stratum_v.Rewards.Split.{apply_fee}
use icminers_stratum_v.Storage.Ledger.Laws.{credit_block_rewards-IsBalanced, with_blocks-IsBalanced}

pub data PassError (E : Type 0) : Type 0 where
  chain_failed : E → PassError E
  not_calculated : RewardError → PassError E
  not_credited : StoreError → PassError E

module _ (fl : Floats) where
  open fl use {F, of_ℕ}

  -- A pending block that is on the chain gets its progress, the others their new status.
  unfoldable pub record_as : Status → ℕ → ConfirmationStatus F → Db F → Db F
  record_as pending id st db =
      if ltb 0 st.confirmations
      then update_block_confirmation id pending st.confirmations st.progress db
      else db
  record_as confirmed id st db = update_block_confirmation id confirmed st.confirmations (of_ℕ 1) db
  record_as orphaned id st db = update_block_confirmation id orphaned 0 (of_ℕ 0) db

  -- Only the rows of blocks change.
  record_as-IsBalanced :
      (status : Status) (id : ℕ) (st : ConfirmationStatus F) (db : Db F)
      → IsBalanced db
      → IsBalanced (record_as status id st db)
  unfolding record_as update_block_confirmation
  record_as-IsBalanced pending id st db h = elim (Bool-cases (ltb 0 st.confirmations)) [
    | inl some_blocks ↦ rw some_blocks (with_blocks-IsBalanced _ db h)
    | inr no_block ↦ rw no_block h
  ]
  record_as-IsBalanced confirmed id st db h = with_blocks-IsBalanced _ db h
  record_as-IsBalanced orphaned id st db h = with_blocks-IsBalanced _ db h

module _ (fl : Floats) {E : Type 0} where
  open fl use {F}

  unfoldable pub reward_each :
      ShareSource F → Calculator F → F → List (Block F) → Db F → Db F × Option (PassError E)
  reward_each src calc fee_percent [] db = (db, none)
  reward_each src calc fee_percent (b ∷ bs) db =
      let split = apply_fee fl b.reward_sats fee_percent in
      elim (calculate fl src calc b split.0) [
        | err e ↦ (db, some (not_calculated e))
        | ok cs ↦ elim (credit_block_rewards db b cs split.1) [
          | err e ↦ (db, some (not_credited e))
          | ok end ↦ reward_each src calc fee_percent bs end
        ]
      ]

  unfoldable pub reward_if_confirmed :
      ShareSource F
      → Calculator F
      → F
      → Str
      → Db F × Option (PassError E)
      → Db F × Option (PassError E)
  unfolding reward_each
  reward_if_confirmed src calc fee_percent pool (db, some e) = (db, some e)
  reward_if_confirmed src calc fee_percent pool (db, none) =
      reward_each src calc fee_percent (confirmed_unrewarded pool db) db

module _ (fl : Floats) {E : Type 0} (equal_fold : Str → Str → Bool) where
  open fl use {F}

  unfoldable pub confirm_each :
      ChainView E → ConfirmOptions → List (Block F) → Db F → Db F × Option (PassError E)
  unfolding record_as
  confirm_each chain opts [] db = (db, none)
  confirm_each chain opts (b ∷ bs) db =
      elim (check_block fl equal_fold chain b.height b.hash opts) [
        | err e ↦ (db, some (chain_failed e))
        | ok st ↦ confirm_each chain opts bs (record_as fl st.status b.id st db)
      ]

  unfoldable pub pass :
      ChainView E
      → ConfirmOptions
      → ShareSource F
      → Calculator F
      → F
      → Str
      → Db F
      → Db F × Option (PassError E)
  unfolding confirm_each reward_if_confirmed
  pass chain opts src calc fee_percent pool db =
      reward_if_confirmed fl src calc fee_percent pool
        (confirm_each chain opts (unconfirmed_blocks pool db) db)

module _ (fl : Floats) (E : Type 0) where
  open fl use {F}

  reward_each-IsBalanced :
      (src : ShareSource F) (calc : Calculator F) (fee_percent : F) (bs : List (Block F))
      (db : Db F)
      → IsBalanced db
      → IsBalanced (reward_each fl {E = E} src calc fee_percent bs db).0
  unfolding reward_each
  reward_each-IsBalanced src calc fee_percent [] db h = h
  reward_each-IsBalanced src calc fee_percent (b ∷ bs) db h =
      let split = apply_fee fl b.reward_sats fee_percent in
      elim (Result-cases (calculate fl src calc b split.0)) [
        | inr (e, failed) ↦ rw (failed, reward_each) h
        | inl (cs, done) ↦ elim (Result-cases (credit_block_rewards db b cs split.1)) [
          | inr (e, failed) ↦ rw (done, reward_each, failed) h
          | inl (end, paid) ↦
              rw (done, reward_each, paid)
                (reward_each-IsBalanced src calc fee_percent bs end
                  (credit_block_rewards-IsBalanced db end b cs split.1 h paid))
        ]
      ]

  reward_if_confirmed-IsBalanced :
      (src : ShareSource F) (calc : Calculator F) (fee_percent : F) (pool : Str)
      (r : Db F × Option (PassError E))
      → IsBalanced r.0
      → IsBalanced (reward_if_confirmed fl src calc fee_percent pool r).0
  unfolding reward_if_confirmed
  reward_if_confirmed-IsBalanced src calc fee_percent pool (db, some e) h = h
  reward_if_confirmed-IsBalanced src calc fee_percent pool (db, none) h =
      reward_each-IsBalanced src calc fee_percent (confirmed_unrewarded pool db) db h

module _ (fl : Floats) {E : Type 0} (equal_fold : Str → Str → Bool) where
  open fl use {F}

  confirm_each-IsBalanced :
      (chain : ChainView E) (opts : ConfirmOptions) (bs : List (Block F)) (db : Db F)
      → IsBalanced db
      → IsBalanced (confirm_each fl equal_fold chain opts bs db).0
  unfolding confirm_each
  confirm_each-IsBalanced chain opts [] db h = h
  confirm_each-IsBalanced chain opts (b ∷ bs) db h =
      elim (Result-cases (check_block fl equal_fold chain b.height b.hash opts)) [
        | inr (e, failed) ↦ rw (failed, confirm_each) h
        | inl (st, done) ↦
            rw (done, confirm_each)
              (confirm_each-IsBalanced chain opts bs (record_as fl st.status b.id st db)
                (record_as-IsBalanced fl st.status b.id st db h))
      ]

  -- A sweep, whatever the chain and the shares say and wherever it stops, keeps the books of the
  -- ledger balanced.
  pub pass-IsBalanced :
      (chain : ChainView E) (opts : ConfirmOptions) (src : ShareSource F) (calc : Calculator F)
      (fee_percent : F) (pool : Str) (db : Db F)
      → IsBalanced db
      → IsBalanced (pass fl equal_fold chain opts src calc fee_percent pool db).0
  unfolding pass
  pass-IsBalanced chain opts src calc fee_percent pool db h =
      reward_if_confirmed-IsBalanced fl E src calc fee_percent pool _
        (confirm_each-IsBalanced chain opts (unconfirmed_blocks pool db) db h)
