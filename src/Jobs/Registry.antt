-- ===== src/Jobs/Registry.antt =====
-- internal/jobs/manager.go, `Registry`: the managers of all pools, by pool id. The map holds
-- pointers, so that an operation on a pool's manager changes the manager that the map shows: here
-- it is put back.
use icminers_stratum_v.Prelude.{
  str_eq, ℕ, List, [], ◌∷◌, true, Option, none, some, Str, Result, err,
}
use icminers_stratum_v.Prelude.Dict.{Dict, lookup, insert}
use icminers_stratum_v.Prelude.Floats.{Floats}
use icminers_stratum_v.Coins.Notify.{Param}
use icminers_stratum_v.Adapter.{MiningJob, ShareSubmit, ShareResult, ShareError}
use icminers_stratum_v.Jobs.Manager
use icminers_stratum_v.Jobs.Manager.{BlockTemplate, Polled}
use icminers_stratum_v.Jobs.Submit
use icminers_stratum_v.Jobs.Submit.{SubmitError, Event}

abbrev pub Registry : Type 0
Registry = Dict Str Manager.Manager

unfoldable pub add : Registry → Manager.Manager → Registry
add r m = insert m.pool_id m r

unfoldable pub get : Registry → Str → Option Manager.Manager
get r pool_id = lookup pool_id r

unfoldable pub current_notify : Registry → Str → Option (List Param)
unfolding get
current_notify r pool_id = elim (get r pool_id) [ none ↦ none | some m ↦ Manager.current_notify m ]

-- The poll of one pool's manager.
unfoldable pub poll :
    Registry → Str → Option BlockTemplate → (BlockTemplate → Option MiningJob) → Registry
unfolding get
poll r pool_id tpl build = elim (get r pool_id) [
  | none ↦ r
  | some m ↦ insert pool_id (Manager.poll m tpl build).0 r
]

abbrev with_broadcaster : Manager.Manager → Manager.Manager
with_broadcaster m = record m { has_broadcaster = true }

unfoldable pub set_broadcaster : Registry → Registry
set_broadcaster [] = []
set_broadcaster ((id, m) ∷ r) = (id, with_broadcaster m) ∷ set_broadcaster r

module _ (fl : Floats) where
  open fl use {F}

  unfoldable pub submit_share :
      (MiningJob → ShareSubmit F → Result ShareError (ShareResult F))
      → Registry
      → Str
      → ShareSubmit F
      → ℕ
      → Registry × List (Event F) × Result SubmitError (ShareResult F)
  unfolding get
  submit_share validate r pool_id s now = elim (get r pool_id) [
    | none ↦ (r, [], err Submit.SubmitError.job_not_found)
    | some m ↦
        (let (m', events, result) = Submit.submit_share fl validate m s now in
          (insert pool_id m' r, events, result))
  ]
