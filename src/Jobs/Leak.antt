-- ===== src/Jobs/Leak.antt =====
-- A share that is being submitted while its job is evicted: `Poll` between the two critical
-- sections of `SubmitShare`.
use icminers_stratum_v.Prelude.{
  ◌+◌, ◌^◌, ◌≤◌, ◌<◌, ◌≡◌, refl, ◌∙◌, List, [], ◌∷◌, ◌++◌, true, false, arith, ltb, length, ◌-◌,
  Option, none, some, Str, list_beq_iff, str_eq, Bool-cases, Option-cases, inl, inr,
}
use icminers_stratum_v.Prelude.Dict.{Dict, lookup, erase, lookup-insert, lookup-erase, beq_refl}
use icminers_stratum_v.Adapter.{MiningJob}
use icminers_stratum_v.Jobs.Ids.{job_id, read_id, read_id-job_id}
use icminers_stratum_v.Jobs.Manager.{
  Manager, BlockTemplate, poll, evict, install, remember, is_updated, max_remembered_jobs,
}
use icminers_stratum_v.Jobs.Submit.{contains, mark, seen_of}
use icminers_stratum_v.Jobs.Memory.{is_some, contains-append, contains-drop, order-evict}

-- A run of polls with whatever the daemon and the adapter answer.
abbrev pub PollInput : Type 0
PollInput = Option BlockTemplate × (BlockTemplate → Option MiningJob)

pub polls : Manager → List PollInput → Manager
polls m [] = m
polls m ((tpl, build) ∷ inputs) = polls (poll m tpl build).0 inputs

-- An id that was issued, is no longer remembered, and has a set of seen shares.
record Leaked (id : Str) (m : Manager) : Type 0 where
  gone : contains id m.memory.order ≡ false
  kept : is_some (lookup id m.memory.dup_by_job) ≡ true
  issued : read_id id ≤ m.job_counter

evict-keeps :
    (id : Str) (order : List Str) (by_id : Dict Str MiningJob) (dups : Dict Str (List Str))
    → contains id order ≡ false
    → lookup id (evict order by_id dups).dup_by_job ≡ lookup id dups
unfolding evict contains
evict-keeps id [] by_id dups h = refl
evict-keeps id (x ∷ rest) by_id dups h =
    elim (Bool-cases (ltb max_remembered_jobs (length (x ∷ rest)))) [
      | inr room ↦ rw room
      | inl full ↦ rw full (
          evict-keeps id rest (erase x by_id) (erase x dups) (ground arith)
          ∙ ground (arith, lookup-erase x id dups, list_beq_iff x id))
    ]

evict-gone :
    (id : Str) (order : List Str) (by_id : Dict Str MiningJob) (dups : Dict Str (List Str))
    → contains id order ≡ false
    → contains id (evict order by_id dups).order ≡ false
evict-gone id order by_id dups h =
    rw (order-evict order by_id dups) (ground (arith, contains-drop id (length order - 8) order))

install-Leaked :
    (id : Str) (m : Manager) (tpl : BlockTemplate) (built : MiningJob)
    → m.job_counter + 1 < 2 ^ 64
    → Leaked id m
    → Leaked id (install m tpl built)
unfolding install remember contains
install-Leaked id m tpl built few v =
    let new = job_id (m.job_counter + 1) in
    let number = read_id-job_id (m.job_counter + 1) few in
    let other : contains id (m.memory.order ++ new ∷ []) ≡ false = ground (
      arith,
      number,
      v.gone,
      v.issued,
      contains-append id m.memory.order (new ∷ []),
      list_beq_iff new id,
    ) in
    record {
      gone = evict-gone id _ _ _ other;
      kept = rw (evict-keeps id (m.memory.order ++ new ∷ []) _ m.memory.dup_by_job other) v.kept;
      issued = omega (arith, v.issued);
    }

poll-Leaked :
    (id : Str) (m : Manager) (tpl : Option BlockTemplate) (build : BlockTemplate → Option MiningJob)
    → m.job_counter + 1 < 2 ^ 64
    → Leaked id m
    → Leaked id (poll m tpl build).0 × ((poll m tpl build).0.job_counter ≤ m.job_counter + 1)
unfolding poll
poll-Leaked id m none build few v = (v, omega arith)
poll-Leaked id m (some tpl) build few v = elim (Bool-cases (is_updated m tpl)) [
  | inr same ↦ rw same (v, omega arith)
  | inl updated ↦ elim (Option-cases (build tpl)) [
    | inl failed ↦ rw (updated, failed, poll) (v, omega arith)
    | inr (built, e) ↦
        rw (updated, e, poll) (install-Leaked id m tpl built few v, unfold install in omega arith)
  ]
]

polls-Leaked :
    (id : Str) (m : Manager) (inputs : List PollInput)
    → m.job_counter + length inputs < 2 ^ 64
    → Leaked id m
    → Leaked id (polls m inputs)
unfolding polls
polls-Leaked id m [] few v = v
polls-Leaked id m ((tpl, build) ∷ inputs) few v =
    let (next, grown) = poll-Leaked id m tpl build (omega arith) v in
    polls-Leaked id (poll m tpl build).0 inputs (omega (arith, grown)) next

-- Where a job's id was issued but the job has been evicted by the time its share is marked, the
-- share's duplicate set is created anew and is still there after any further polls.
pub mark-polls_leak :
    (m : Manager) (id key : Str) (inputs : List PollInput)
    → contains id m.memory.order ≡ false
    → read_id id ≤ m.job_counter
    → (mark m id key).1 ≡ false
    → m.job_counter + length inputs < 2 ^ 64
    → is_some (lookup id (polls (mark m id key).0 inputs).memory.dup_by_job) ≡ true
unfolding mark
mark-polls_leak m id key inputs gone issued new few =
    let same : (mark m id key).0.job_counter ≡ m.job_counter = ground arith in
    (polls-Leaked id (mark m id key).0 inputs (omega (arith, same, few)) (record {
      gone = ground (arith, gone);
      kept = ground (
        arith,
        new,
        lookup-insert id id (key ∷ seen_of (lookup id m.memory.dup_by_job)) m.memory.dup_by_job,
        beq_refl id,
      );
      issued = ground (arith, issued);
    })).kept
