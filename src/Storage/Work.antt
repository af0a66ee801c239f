-- ===== src/Storage/Work.antt =====
-- internal/storage/postgres/rewards.go: `WorkBackward`, which pages through a pool's shares from the
-- newest one, and `WorkBetween`. The page size is an argument, 10,000 in the source.
pub mod Paging
mod Tests
use icminers_stratum_v.Prelude.{
  str_eq, ℕ, zero, suc, ◌+◌, List, [], ◌∷◌, map, Bool, true, false, not, ltb, leb, ◌&&◌,
  if◌then◌else◌, length, take, Option, none, some, Str, list_beq, filter, sort_by,
}
use icminers_stratum_v.Prelude.Dict.{Dict, insert, get_or}
use icminers_stratum_v.Prelude.Floats.{Floats}
use icminers_stratum_v.Rewards.Split.{MinerWork}

-- The columns that the queries read.
pub record Share (F : Type 0) : Type 0 where
  pub pool_id : Str
  pub miner : Str
  pub difficulty : F
  pub created : ℕ

-- `workBackwardPage`.
abbrev pub work_backward_page : ℕ
work_backward_page = 10000

-- The sums by miner, and what is counted in all.
pub record Walk (F : Type 0) : Type 0 where
  pub sums : Dict Str F
  pub collected : F

module _ {F : Type 0} where
  -- `WHERE poolid = $1 ORDER BY created DESC`.
  unfoldable pub newest_first : Str → List (Share F) → List (Share F)
  newest_first pool rows =
      sort_by (λ a b. ltb b.created a.created) (filter (λ r. list_beq r.pool_id pool) rows)

  -- The time of the last row.
  unfoldable pub last_created : ℕ → List (Share F) → ℕ
  last_created t [] = t
  last_created t (r ∷ rs) = last_created r.created rs

module _ (fl : Floats) where
  open fl use {F, of_ℕ, add, lt, le}

  abbrev pub no_work : Walk F
  no_work = record { sums = []; collected = of_ℕ 0 }

  abbrev pub add_work : Share F → Dict Str F → Dict Str F
  add_work r sums = insert r.miner (add (get_or r.miner (of_ℕ 0) sums) r.difficulty) sums

  -- Once the target is reached no more is counted.
  abbrev pub count_row : F → Walk F → Share F → Walk F
  count_row target w r =
      if le target w.collected
      then w
      else record { sums = add_work r w.sums; collected = add w.collected r.difficulty }

  -- The rows of a page.
  unfoldable pub count_rows : F → Walk F → List (Share F) → Walk F
  count_rows target w [] = w
  count_rows target w (r ∷ rs) = count_rows target (count_row target w r) rs

  -- The loop: `older` selects the rows behind the cursor. It ends within the fuel.
  unfoldable pub walk_back :
      ℕ → ℕ → F → List (Share F) → (Share F → Bool) → Walk F → Option (Walk F)
  unfolding count_rows last_created
  walk_back zero limit target rows older w = none
  walk_back (suc fuel) limit target rows older w =
      let page = take limit (filter older rows) in
      let counted = count_rows target w page in
      let next =
        walk_back fuel limit target rows (λ r. ltb r.created (last_created 0 page)) counted in
      if not (lt w.collected target)
      then some w
      else if leb (length page) 0
      then some w
      else if ltb (length page) limit && lt counted.collected target
      then some counted
      else next

  -- Each round but the last takes a row off those that are left.
  unfoldable pub work_backward : ℕ → Str → List (Share F) → ℕ → F → Option (List (MinerWork F))
  unfolding walk_back newest_first
  work_backward limit pool shares before target =
      let rows = newest_first pool shares in
      elim (walk_back (length rows + 1) limit target rows (λ r. leb r.created before) no_work) [
        | none ↦ none
        | some w ↦ some (map (λ p. record { miner = p.0; diff_sum = p.1 }) w.sums)
      ]

  -- `GROUP BY miner` over the shares of a span.
  unfoldable pub group_work : List (Share F) → Dict Str F → Dict Str F
  group_work [] sums = sums
  group_work (r ∷ rs) sums = group_work rs (add_work r sums)

  unfoldable pub work_between : Str → ℕ → ℕ → List (Share F) → List (MinerWork F)
  unfolding group_work
  work_between pool from to shares =
      map (λ p. record { miner = p.0; diff_sum = p.1 })
        (group_work
          (filter (λ r. list_beq r.pool_id pool && (ltb from r.created && leb r.created to)) shares)
          [])
