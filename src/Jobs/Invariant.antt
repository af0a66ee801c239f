-- ===== src/Jobs/Invariant.antt =====
-- What holds of a manager between calls.
use icminers_stratum_v.Prelude.{Result, ◌-◌}
use icminers_stratum_v.Prelude.Floats.{Floats}
use icminers_stratum_v.Adapter.{ShareSubmit, ShareResult, ShareError}
use icminers_stratum_v.Jobs.Submit.{submit_share, submit_found, dup_key}
use icminers_stratum_v.Jobs.Memory.{contains-last, Distinct-snoc}
use icminers_stratum_v.Prelude.{
  ℕ, ◌+◌, ◌-◌, ◌^◌, ◌<◌, ◌≡◌, ◌≢◌, refl, ◌∙◌, [], ◌∷◌, ◌++◌, true, false, arith, length,
  length-append, drop, Option, none, some, Str, list_beq_iff, str_eq, Bool-cases, Option-cases, inl,
  inr,
}
use icminers_stratum_v.Prelude.Dict.{lookup, insert, lookup-insert, beq_refl}
use icminers_stratum_v.Adapter.{MiningJob}
use icminers_stratum_v.Jobs.Ids.{job_id, read_id-job_id}
use icminers_stratum_v.Jobs.Manager.{
  new_manager, Manager, BlockTemplate, remember, install, poll, is_updated, get, stamp_job,
  prev_changed,
}
use icminers_stratum_v.Jobs.Submit.{contains, mark, seen_of}
use icminers_stratum_v.Jobs.Memory.{
  Inv, evict-Agrees, order-evict, contains-append, contains-drop, lookup-evict, Agrees-insert,
  length-drop_excess,
}

module _ (m : Manager) (v : Inv m) (few : m.job_counter + 1 < 2 ^ 64) where
  abbrev new_id : Str
  new_id = job_id (m.job_counter + 1)

  pub id_is_new : contains new_id m.memory.order ≡ false
  id_is_new = elim (Bool-cases (contains new_id m.memory.order)) [
    | inr new ↦ new
    | inl old ↦ absurd (omega (arith, v.issued new_id old, read_id-job_id (m.job_counter + 1) few))
  ]

  grown_order :
      (j : Str) (job : MiningJob)
      → contains j (remember m.memory new_id job).order ≡ true
      → contains j (m.memory.order ++ new_id ∷ []) ≡ true
  unfolding remember
  grown_order j job h =
      let order = m.memory.order ++ new_id ∷ [] in
      contains-drop j (length order - 8) order
        (rw (order-evict order (insert new_id job m.memory.by_id) m.memory.dup_by_job) at h)

  install-Inv : (tpl : BlockTemplate) (built : MiningJob) → Inv (install m tpl built)
  unfolding install remember contains
  install-Inv tpl built =
      let job = stamp_job built m.pool_id new_id (prev_changed m tpl) in
      let order = m.memory.order ++ new_id ∷ [] in
      let by_id = insert new_id job m.memory.by_id in
      record {
        agrees =
            evict-Agrees order by_id m.memory.dup_by_job
              (Agrees-insert m.memory new_id job v.agrees id_is_new);
        bounded = rw (order-evict order by_id m.memory.dup_by_job) (length-drop_excess order);
        issued = λ j h.
            let inside = grown_order j job h in
            ground (
              arith,
              inside,
              contains-append j m.memory.order (new_id ∷ []),
              v.issued j,
              list_beq_iff new_id j,
              read_id-job_id (m.job_counter + 1) few,
            );
      }

-- Every poll, whatever the daemon and the adapter answer, keeps the invariant: at most eight jobs
-- are remembered, their ids are distinct and no larger than the counter, and seen shares belong
-- to remembered jobs.
pub poll-Inv :
    (m : Manager) (tpl : Option BlockTemplate) (build : BlockTemplate → Option MiningJob)
    → m.job_counter + 1 < 2 ^ 64
    → Inv m
    → Inv (poll m tpl build).0
unfolding poll
poll-Inv m none build few v = v
poll-Inv m (some tpl) build few v = elim (Bool-cases (is_updated m tpl)) [
  | inr same ↦ rw same v
  | inl updated ↦ elim (Option-cases (build tpl)) [
    | inl failed ↦ rw (updated, failed, poll) v
    | inr (built, e) ↦ rw (updated, e, poll) (install-Inv m v few tpl built)
  ]
]

poll-install :
    (m : Manager) (tpl : BlockTemplate) (build : BlockTemplate → Option MiningJob)
    (built : MiningJob)
    → is_updated m tpl ≡ true
    → build tpl ≡ some built
    → (poll m (some tpl) build).0 ≡ install m tpl built
unfolding poll
poll-install m tpl build built updated e = rw (updated, e, poll)

-- A poll with a changed template and a job built from it makes that job current, under an id that
-- no remembered job had; it is found by that id, and the remembered ids are the latest eight.
pub poll-get :
    (m : Manager) (tpl : BlockTemplate) (build : BlockTemplate → Option MiningJob)
    (built : MiningJob)
    → m.job_counter + 1 < 2 ^ 64
    → Inv m
    → is_updated m tpl ≡ true
    → build tpl ≡ some built
    → let m' = (poll m (some tpl) build).0 in
      let id = job_id (m.job_counter + 1) in
      (contains id m.memory.order ≡ false)
      × (m'.current ≡ some (stamp_job built m.pool_id id (prev_changed m tpl)))
      × (get m' id ≡ some (stamp_job built m.pool_id id (prev_changed m tpl)))
      × (m'.memory.order ≡ drop (length m.memory.order + 1 - 8) (m.memory.order ++ id ∷ []))
unfolding get install remember
poll-get m tpl build built few v updated e =
    let id = job_id (m.job_counter + 1) in
    let job = stamp_job built m.pool_id id (prev_changed m tpl) in
    let order = m.memory.order ++ id ∷ [] in
    let by_id = insert id job m.memory.by_id in
    let new = id_is_new m v few in
    let size : length order ≡ length m.memory.order + 1 = length-append m.memory.order (id ∷ []) in
    let kept = order-evict order by_id m.memory.dup_by_job in
    let last : contains id (drop (length order - 8) order) ≡ true =
      contains-last id m.memory.order in
    rw (poll-install m tpl build built updated e) (
      new,
      refl,
      lookup-evict id order by_id m.memory.dup_by_job
            (Distinct-snoc m.memory.order id v.agrees.distinct new) (rw kept last)
          ∙ rw (lookup-insert id id job m.memory.by_id, beq_refl id),
      rw size at kept,
    )

-- A job that such a poll still remembers, other than the new one, is found as before.
pub poll-get_old :
    (m : Manager) (tpl : BlockTemplate) (build : BlockTemplate → Option MiningJob)
    (built : MiningJob) (id : Str)
    → m.job_counter + 1 < 2 ^ 64
    → Inv m
    → is_updated m tpl ≡ true
    → build tpl ≡ some built
    → id ≢ job_id (m.job_counter + 1)
    → contains id (poll m (some tpl) build).0.memory.order ≡ true
    → get (poll m (some tpl) build).0 id ≡ get m id
unfolding get install remember
poll-get_old m tpl build built id few v updated e other here =
    let new = job_id (m.job_counter + 1) in
    let job = stamp_job built m.pool_id new (prev_changed m tpl) in
    let by_id = insert new job m.memory.by_id in
    let fresh = id_is_new m v few in
    rw (poll-install m tpl build built updated e) (
      lookup-evict id (m.memory.order ++ new ∷ []) by_id m.memory.dup_by_job
        (Distinct-snoc m.memory.order new v.agrees.distinct fresh)
        (rw (poll-install m tpl build built updated e) at here)
      ∙ ground (arith, other, lookup-insert new id job m.memory.by_id, list_beq_iff new id))

-- Marking a share of a remembered job keeps the invariant.
mark-Inv :
    (m : Manager) (id key : Str) → Inv m → contains id m.memory.order ≡ true → Inv (mark m id key).0
unfolding mark
mark-Inv m id key v here =
    elim (Bool-cases (contains key (seen_of (lookup id m.memory.dup_by_job)))) [
      | inl dup ↦ rw dup v
      | inr new ↦ rw new (record {
        agrees = record {
          remembered = v.agrees.remembered;
          seen = λ j h. ground (
            arith,
            here,
            v.agrees.seen j,
            list_beq_iff id j,
            lookup-insert id j (key ∷ seen_of (lookup id m.memory.dup_by_job)) m.memory.dup_by_job,
          );
          distinct = v.agrees.distinct;
        };
        bounded = v.bounded;
        issued = v.issued;
      })
    ]

-- A submitted share, whatever the adapter says of it, keeps the invariant.
pub submit_share-Inv :
    (fl : Floats) (validate : MiningJob → ShareSubmit fl.F → Result ShareError (ShareResult fl.F))
    (m : Manager) (s : ShareSubmit fl.F) (now : ℕ)
    → Inv m
    → Inv (submit_share fl validate m s now).0
unfolding submit_share submit_found get
submit_share-Inv fl validate m s now v = elim (Option-cases (get m s.job_id)) [
  | inl gone ↦ rw (gone, submit_share) v
  | inr (job, e) ↦
      let here : contains s.job_id m.memory.order ≡ true =
        ground (arith, e, v.agrees.remembered s.job_id) in
      rw (e, submit_share)
        (elim (Bool-cases (mark m s.job_id (dup_key s)).1) [
          | inl dup ↦ rw dup (mark-Inv m s.job_id (dup_key s) v here)
          | inr new ↦ rw new (mark-Inv m s.job_id (dup_key s) v here)
        ])
]

pub new_manager-Inv : (pool_id : Str) → Inv (new_manager pool_id)
unfolding new_manager contains lookup
new_manager-Inv pool_id = record {
  agrees = record { remembered = λ id. refl; seen = λ id e. absurd (cc); distinct = tt };
  bounded = omega arith;
  issued = λ id e. absurd (cc);
}
