-- ===== src/Jobs/Repeats.antt =====
-- A share that comes again, whatever other shares and polls have come in between.
use icminers_stratum_v.Prelude.{
  ℕ, ◌+◌, ◌^◌, ◌<◌, ◌≡◌, refl, ap, ◌∙◌, arith, List, [], ◌∷◌, ◌++◌, true, ltb, length, Option, none,
  some, Str, list_beq_iff, str_eq, Bool-cases, Option-cases, inl, inr, Result, err, ◌-◌, sym, subst,
}
use icminers_stratum_v.Prelude.Dict.{
  Dict, lookup, insert, erase, lookup-insert, lookup-erase, beq_refl,
}
use icminers_stratum_v.Prelude.Floats.{Floats}
use icminers_stratum_v.Adapter.{MiningJob, ShareSubmit, ShareResult, ShareError}
use icminers_stratum_v.Jobs.Manager.{
  Manager, BlockTemplate, get, evict, max_remembered_jobs, poll, install, remember, is_updated,
  stamp_job, prev_changed,
}
use icminers_stratum_v.Jobs.Ids.{job_id}
use icminers_stratum_v.Jobs.Submit.{
  contains, mark, seen_of, submit_share, dup_key, key_fields, join, duplicate_share,
}
use icminers_stratum_v.Jobs.Memory.{
  Inv, Distinct, Agrees-insert, order-evict, contains-drop, is_some,
}
use icminers_stratum_v.Jobs.Invariant.{poll-Inv, submit_share-Inv, id_is_new}
use icminers_stratum_v.Jobs.Duplicates.{mark-get, submit_share-mark, submit_share-duplicate}

-- What else reaches the manager: another share, or a poll with the daemon's and the adapter's answers.
pub data Step (F : Type 0) : Type 0 where
  submitted : ShareSubmit F → ℕ → Step F
  polled : Option BlockTemplate → (BlockTemplate → Option MiningJob) → Step F

-- A share that is among the seen shares of a job.
unfoldable pub Seen : Str → Str → Manager → Type 0
Seen id key m = contains key (seen_of (lookup id m.memory.dup_by_job)) ≡ true

mark-Seen : (m : Manager) (id key : Str) → Seen id key (mark m id key).0
unfolding Seen mark contains
mark-Seen m id key = elim (Bool-cases (contains key (seen_of (lookup id m.memory.dup_by_job)))) [
  | inl dup ↦ rw dup dup
  | inr new ↦
      let seen = seen_of (lookup id m.memory.dup_by_job) in
      rw new (
        rw (lookup-insert id id (key ∷ seen) m.memory.dup_by_job, beq_refl id)
          (ground (arith, list_beq_iff key key)))
]

-- Marking another share of this job or another keeps those that were seen.
mark-Seen_other :
    (m : Manager) (id key other_id other : Str)
    → Seen id key m
    → Seen id key (mark m other_id other).0
unfolding Seen mark contains
mark-Seen_other m id key other_id other h =
    elim (Bool-cases (contains other (seen_of (lookup other_id m.memory.dup_by_job)))) [
      | inl dup ↦ rw dup h
      | inr new ↦
          let seen = seen_of (lookup other_id m.memory.dup_by_job) in
          rw new (
            ground (
              arith,
              h,
              lookup-insert other_id id (other ∷ seen) m.memory.dup_by_job,
              list_beq_iff other_id id,
            ))
    ]

Seen-mark : (m : Manager) (id key : Str) → Seen id key m → mark m id key ≡ (m, true)
unfolding Seen mark
Seen-mark m id key h = rw h refl

-- The seen shares of a job that stays are those from before.
lookup-evict_dups :
    (j : Str) (order : List Str) (by_id : Dict Str MiningJob) (dups : Dict Str (List Str))
    → Distinct order
    → contains j (evict order by_id dups).order ≡ true
    → lookup j (evict order by_id dups).dup_by_job ≡ lookup j dups
unfolding evict
lookup-evict_dups j [] by_id dups d h = refl
lookup-evict_dups j (id ∷ rest) by_id dups d h =
    elim (Bool-cases (ltb max_remembered_jobs (length (id ∷ rest)))) [
      | inr room ↦ rw room
      | inl full ↦
          let fewer = evict rest (erase id by_id) (erase id dups) in
          let stays : contains j fewer.order ≡ true = rw full at h in
          let inside : contains j rest ≡ true =
            contains-drop j (length rest - 8) rest
              (rw (order-evict rest (erase id by_id) (erase id dups)) at stays) in
          rw full (
            lookup-evict_dups j rest (erase id by_id) (erase id dups) d.1 stays
            ∙ ground (arith, lookup-erase id j dups, list_beq_iff id j))
    ]

install-Seen :
    (m : Manager) (tpl : BlockTemplate) (built : MiningJob) (id key : Str)
    → Inv m
    → m.job_counter + 1 < 2 ^ 64
    → contains id (install m tpl built).memory.order ≡ true
    → Seen id key m
    → Seen id key (install m tpl built)
unfolding Seen install remember
install-Seen m tpl built id key v few stays h =
    let new = job_id (m.job_counter + 1) in
    let job = stamp_job built m.pool_id new (prev_changed m tpl) in
    let grown = Agrees-insert m.memory new job v.agrees (id_is_new m v few) in
    let same =
      lookup-evict_dups id (m.memory.order ++ new ∷ []) (insert new job m.memory.by_id)
        m.memory.dup_by_job grown.distinct stays in
    ap (λ o. contains key (seen_of o)) same ∙ h

poll-Seen :
    (m : Manager) (tpl : Option BlockTemplate) (build : BlockTemplate → Option MiningJob)
    (id key : Str)
    → Inv m
    → m.job_counter + 1 < 2 ^ 64
    → contains id (poll m tpl build).0.memory.order ≡ true
    → Seen id key m
    → Seen id key (poll m tpl build).0
unfolding poll
poll-Seen m none build id key v few stays h = h
poll-Seen m (some tpl) build id key v few stays h = elim (Bool-cases (is_updated m tpl)) [
  | inr same ↦ rw same h
  | inl updated ↦ elim (Option-cases (build tpl)) [
    | inl failed ↦ rw (updated, failed, poll) h
    | inr (built, e) ↦
        rw (updated, e, poll)
          (install-Seen m tpl built id key v few (rw (updated, e, poll) at stays) h)
  ]
]

module _ (fl : Floats)
    (validate : MiningJob → ShareSubmit fl.F → Result ShareError (ShareResult fl.F)) where
  unfoldable pub take_step : Step fl.F → Manager → Manager
  take_step (submitted s now) m = (submit_share fl validate m s now).0
  take_step (polled tpl build) m = (poll m tpl build).0

  unfoldable pub take_steps : List (Step fl.F) → Manager → Manager
  take_steps [] m = m
  take_steps (x ∷ xs) m = take_steps xs (take_step x m)

  -- The job is remembered after each step, and the job counter is below its end before it.
  unfoldable pub Stays : Str → List (Step fl.F) → Manager → Type 0
  Stays id [] m = Unit {0}
  Stays id (x ∷ xs) m =
      (m.job_counter + 1 < 2 ^ 64)
      × (is_some (get (take_step x m) id) ≡ true)
      × Stays id xs (take_step x m)

  submit_share-Seen :
      (m : Manager) (s : ShareSubmit fl.F) (now : ℕ) (id key : Str)
      → Seen id key m
      → Seen id key (submit_share fl validate m s now).0
  unfolding submit_share
  submit_share-Seen m s now id key h = elim (Option-cases (get m s.job_id)) [
    | inl gone ↦ rw (gone, submit_share) h
    | inr (job, found) ↦
        rw (submit_share-mark fl validate m s now job found)
          (mark-Seen_other m id key s.job_id (dup_key s) h)
  ]

  take_step-Inv :
      (x : Step fl.F) (m : Manager) → m.job_counter + 1 < 2 ^ 64 → Inv m → Inv (take_step x m)
  unfolding take_step
  take_step-Inv (submitted s now) m few v = submit_share-Inv fl validate m s now v
  take_step-Inv (polled tpl build) m few v = poll-Inv m tpl build few v

  take_step-Seen :
      (x : Step fl.F) (m : Manager) (id key : Str)
      → Inv m
      → m.job_counter + 1 < 2 ^ 64
      → is_some (get (take_step x m) id) ≡ true
      → Seen id key m
      → Seen id key (take_step x m)
  unfolding take_step
  take_step-Seen (submitted s now) m id key v few stays h = submit_share-Seen m s now id key h
  take_step-Seen (polled tpl build) m id key v few stays h =
      poll-Seen m tpl build id key v few
        (sym ((poll-Inv m tpl build few v).agrees.remembered id) ∙ (unfold get in stays)) h

  take_steps-Seen :
      (xs : List (Step fl.F)) (m : Manager) (id key : Str)
      → Inv m
      → is_some (get m id) ≡ true
      → Stays id xs m
      → Seen id key m
      → let m' = take_steps xs m in Seen id key m' × (is_some (get m' id) ≡ true)
  unfolding take_steps Stays
  take_steps-Seen [] m id key v there stays h = (h, there)
  take_steps-Seen (x ∷ xs) m id key v there stays h =
      take_steps-Seen xs (take_step x m) id key (take_step-Inv x m stays.0 v) stays.1 stays.2
        (take_step-Seen x m id key v stays.0 stays.1 h)

  -- In a manager of the invariant, a share that was submitted for a remembered job, with whatever
  -- outcome, is refused as a duplicate when it comes again after any other shares and polls during
  -- which the job stays remembered and the job counter does not wrap, whatever its worker, time and
  -- difficulty; the refusal emits nothing and changes nothing.
  pub submit_share-take_steps :
      (m : Manager) (s t : ShareSubmit fl.F) (now later : ℕ) (xs : List (Step fl.F))
      → Inv m
      → is_some (get m s.job_id) ≡ true
      → t.job_id ≡ s.job_id
      → key_fields t ≡ key_fields s
      → Stays s.job_id xs (submit_share fl validate m s now).0
      → let m' = take_steps xs (submit_share fl validate m s now).0 in
        submit_share fl validate m' t later ≡ (m', [], err duplicate_share)
  submit_share-take_steps m s t now later xs v there same_job same_key stays =
      elim (Option-cases (get m s.job_id)) [
        | inl gone ↦ absurd (ground (arith, there, gone))
        | inr (job, found) ↦
            let first = (submit_share fl validate m s now).0 in
            let marked = submit_share-mark fl validate m s now job found in
            let here : is_some (get first s.job_id) ≡ true =
              ap (λ n. is_some (get n s.job_id)) marked
              ∙ ap is_some (mark-get m s.job_id (dup_key s) s.job_id)
              ∙ there in
            let seen : Seen s.job_id (dup_key s) first =
              subst (Seen s.job_id (dup_key s)) (sym marked) (mark-Seen m s.job_id (dup_key s)) in
            let end =
              take_steps-Seen xs first s.job_id (dup_key s) (submit_share-Inv fl validate m s now v)
                here stays seen in
            let m' = take_steps xs first in
            let key : dup_key t ≡ dup_key s = unfold dup_key in ap join same_key in
            elim (Option-cases (get m' s.job_id)) [
              | inl gone ↦ absurd (ground (arith, end.1, gone))
              | inr (job', found') ↦
                  submit_share-duplicate fl validate m' t later job' (ap (get m') same_job ∙ found')
                    (rw (key, same_job) (Seen-mark m' s.job_id (dup_key s) end.0))
            ]
      ]
