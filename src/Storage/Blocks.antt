-- ===== src/Storage/Blocks.antt =====
-- The rows of blocks and shares: the queries and updates of internal/storage/postgres/rewards.go, and
-- `InsertBlock` of sharewriter.go. Rows stand in no order; a query orders what it selects.
use icminers_stratum_v.Prelude.{
  ℕ, ◌+◌, List, [], ◌∷◌, map, Bool, true, false, ltb, ◌==◌, ◌&&◌, if◌then◌else◌, Option, none, some,
  Str, list_beq, filter, any, sort_by,
}
use icminers_stratum_v.Rewards.Confirm.{Status, pending, confirmed, orphaned}
use icminers_stratum_v.Storage.Tables.{Db, BlockRow}
use icminers_stratum_v.Rewards.Calculate.{Block}

abbrev pub status_number : Status → ℕ
status_number pending = 0
status_number confirmed = 1
status_number orphaned = 2

module _ {F : Type 0} where
  abbrev by_height : Block F → Block F → Bool
  by_height a b = ltb a.height b.height

  abbrev blocks_of : List (BlockRow F) → List (Block F)
  blocks_of rows = map (λ r. r.block) rows

  unfoldable pub unconfirmed_blocks : Str → Db F → List (Block F)
  unconfirmed_blocks pool db = sort_by by_height (
      blocks_of
        (filter (λ r. list_beq r.block.pool_id pool && status_number r.status == 0) db.blocks))

  unfoldable pub is_due : Str → BlockRow F → Bool
  is_due pool r =
      list_beq r.block.pool_id pool
      && (status_number r.status == 1 && (if r.rewarded then false else true))

  unfoldable pub confirmed_unrewarded : Str → Db F → List (Block F)
  unfolding is_due
  confirmed_unrewarded pool db = sort_by by_height (blocks_of (filter (is_due pool) db.blocks))

  unfoldable pub update_rows : ℕ → Status → ℕ → F → List (BlockRow F) → List (BlockRow F)
  update_rows id status confirmations progress [] = []
  update_rows id status confirmations progress (r ∷ rs) =
      (if r.block.id == id
        then record r { status = status; confirmations = confirmations; progress = progress }
        else r)
      ∷ update_rows id status confirmations progress rs

  unfoldable pub update_block_confirmation : ℕ → Status → ℕ → F → Db F → Db F
  unfolding update_rows
  update_block_confirmation id status confirmations progress db = record db {
    blocks = update_rows id status confirmations progress db.blocks;
  }

  -- The latest block strictly before the time.
  unfoldable pub previous_block_time : Str → ℕ → Db F → Option ℕ
  previous_block_time pool before db =
      elim (sort_by (λ a b. ltb b.created a.created)
        (filter (λ b. list_beq b.pool_id pool && ltb b.created before) (blocks_of db.blocks))) [
          | [] ↦ none
          | b ∷ bs ↦ some b.created
        ]

  -- A block is inserted once for its pool, height and hash; the worker and the region are left out.
  unfoldable pub insert_block : F → Block F → Db F → Db F
  insert_block zero_progress b db =
      if any
        (λ r.
          list_beq r.block.pool_id b.pool_id
          && (r.block.height == b.height && list_beq r.block.hash b.hash))
        db.blocks
      then db
      else record db {
        blocks =
            record {
              block = record b { id = db.next_id };
              status = pending;
              rewarded = false;
              confirmations = 0;
              progress = zero_progress;
            }
            ∷ db.blocks;
        next_id = db.next_id + 1;
      }
