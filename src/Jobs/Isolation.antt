-- ===== src/Jobs/Isolation.antt =====
-- internal/jobs/manager.go, `Registry`: what one pool's jobs and shares do to the other pools.
use icminers_stratum_v.Prelude.{
  str_eq, ℕ, ◌≡◌, ◌≢◌, refl, [], arith, Option, none, some, Str, list_beq_iff, Option-cases, inl,
  inr, Result, err,
}
use icminers_stratum_v.Prelude.Dict.{lookup, lookup-insert, beq_refl}
use icminers_stratum_v.Prelude.Floats.{Floats}
use icminers_stratum_v.Adapter.{MiningJob, ShareSubmit, ShareResult, ShareError}
use icminers_stratum_v.Jobs.Manager
use icminers_stratum_v.Jobs.Manager.{BlockTemplate}
use icminers_stratum_v.Jobs.Submit
use icminers_stratum_v.Jobs.Submit.{SubmitError, Event}
use icminers_stratum_v.Jobs.Registry.{Registry, get, poll, submit_share}

get-poll :
    (r : Registry) (p q : Str) (tpl : Option BlockTemplate)
    (build : BlockTemplate → Option MiningJob)
    → p ≢ q
    → get (poll r p tpl build) q ≡ get r q
unfolding get poll
get-poll r p q tpl build d = elim (Option-cases (lookup p r)) [
  | inl e ↦ rw (e, poll) refl
  | inr (m, e) ↦
      rw (e, poll)
        (ground (arith, d, lookup-insert p q (Manager.poll m tpl build).0 r, list_beq_iff p q))
]

module _ (fl : Floats) where
  open fl use {F}

  get-submit_share :
      (validate : MiningJob → ShareSubmit F → Result ShareError (ShareResult F)) (r : Registry)
      (p q : Str) (s : ShareSubmit F) (now : ℕ)
      → p ≢ q
      → get (submit_share fl validate r p s now).0 q ≡ get r q
  unfolding get submit_share
  get-submit_share validate r p q s now d = elim (Option-cases (lookup p r)) [
    | inl e ↦ rw (e, submit_share) refl
    | inr (m, e) ↦
        rw (e, submit_share)
          (ground (
            arith,
            d,
            lookup-insert p q (Submit.submit_share fl validate m s now).0 r,
            list_beq_iff p q,
          ))
  ]

  -- A poll and a share of one pool leave every other pool's manager as it was; a share of a pool
  -- with a manager is answered by that manager, whose new state the registry then shows; a share
  -- of a pool without a manager is answered with the error for a job that is not found, and
  -- changes no pool.
  pub submit_share-isolated :
      (validate : MiningJob → ShareSubmit F → Result ShareError (ShareResult F)) (r : Registry)
      (p : Str) (s : ShareSubmit F) (now : ℕ)
      → ((q : Str) → p ≢ q → get (submit_share fl validate r p s now).0 q ≡ get r q)
        × ((q : Str) (tpl : Option BlockTemplate) (build : BlockTemplate → Option MiningJob)
            → p ≢ q
            → get (poll r p tpl build) q ≡ get r q)
        × ((m : Manager.Manager)
            → get r p ≡ some m
            → (get (submit_share fl validate r p s now).0 p
                ≡ some (Submit.submit_share fl validate m s now).0)
              × ((submit_share fl validate r p s now).1
                  ≡ (Submit.submit_share fl validate m s now).1))
        × (get r p ≡ none
            → submit_share fl validate r p s now ≡ (r, [], err Submit.SubmitError.job_not_found))
  unfolding get submit_share
  submit_share-isolated validate r p s now = (
    λ q d. get-submit_share validate r p q s now d,
    λ q tpl build d. get-poll r p q tpl build d,
    λ m e. (
      rw (e, submit_share)
          (ground
            (arith, lookup-insert p p (Submit.submit_share fl validate m s now).0 r, beq_refl p)),
      rw (e, submit_share) refl,
    ),
    λ e. rw (e, submit_share) refl,
  )
