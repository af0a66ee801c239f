-- ===== src/Jobs/Manager.antt =====
-- internal/jobs/manager.go: one pool's jobs. The adapter's calls are arguments: the template that
-- the daemon gave, if it gave one, and the job that was built from it, if it could be built. A
-- poll returns what is broadcast. The job counter's wrap-around at 2^64 is left out.
use icminers_stratum_v.Prelude.{
  str_eq, ℕ, ◌+◌, List, [], ◌∷◌, ◌++◌, Bool, true, false, ◌||◌, not, ltb, ◌==◌, if◌then◌else◌,
  length, Option, none, some, Str, list_beq,
}
use icminers_stratum_v.Prelude.Dict.{Dict, lookup, insert, erase}
use icminers_stratum_v.Coins.Notify.{Job, Param, notify_params}
use icminers_stratum_v.Adapter.{MiningJob}
use icminers_stratum_v.Jobs.Ids.{job_id}

-- What `Poll` reads of a template.
pub record BlockTemplate : Type 0 where
  pub previous_block_hash : Str
  pub cur_time : ℕ
  pub tx_count : ℕ
  pub coinbase_value : ℕ

abbrev pub max_remembered_jobs : ℕ
max_remembered_jobs = 8

-- The remembered jobs: by id, the seen shares of each, and the ids in order of insertion.
pub record Memory : Type 0 where
  pub by_id : Dict Str MiningJob
  pub dup_by_job : Dict Str (List Str)
  pub order : List Str

pub record Manager : Type 0 where
  pub pool_id : Str
  pub has_broadcaster : Bool
  pub has_recorder : Bool
  pub current : Option MiningJob
  pub memory : Memory
  pub job_counter : ℕ
  pub last_prev : Str
  pub last_cur_time : ℕ
  pub last_tx_count : ℕ
  pub last_value : ℕ

unfoldable pub new_manager : Str → Manager
new_manager pool_id = record {
  pool_id = pool_id;
  has_broadcaster = false;
  has_recorder = false;
  current = none;
  memory = record { by_id = []; dup_by_job = []; order = [] };
  job_counter = 0;
  last_prev = [];
  last_cur_time = 0;
  last_tx_count = 0;
  last_value = 0;
}

-- `for len(m.order) > maxRememberedJobs`: the oldest job goes, with its seen shares.
unfoldable pub evict : List Str → Dict Str MiningJob → Dict Str (List Str) → Memory
evict [] by_id dups = record { by_id = by_id; dup_by_job = dups; order = [] }
evict (id ∷ rest) by_id dups =
    let fewer = evict rest (erase id by_id) (erase id dups) in
    if ltb max_remembered_jobs (length (id ∷ rest))
    then fewer
    else record { by_id = by_id; dup_by_job = dups; order = id ∷ rest }

-- `base.JobID = jobID; base.CleanJob = clean`
abbrev pub restamp : Str → Bool → Job → Job
restamp id clean base = record base { job_id = id; clean_job = clean }

unfoldable pub stamp_job : MiningJob → Str → Str → Bool → MiningJob
stamp_job job pool_id id clean =
    let stamped = record job { job_id = id; pool_id = pool_id; clean_jobs = clean } in
    elim job.base [
      | none ↦ stamped
      | some base ↦ record stamped {
        base = some (restamp id clean base);
        notify_params = notify_params (restamp id clean base);
      }
    ]

unfoldable pub prev_changed : Manager → BlockTemplate → Bool
prev_changed m tpl = not (list_beq tpl.previous_block_hash m.last_prev)

unfoldable pub is_updated : Manager → BlockTemplate → Bool
unfolding prev_changed
is_updated m tpl =
    prev_changed m tpl
    || not (tpl.cur_time == m.last_cur_time)
    || not (tpl.tx_count == m.last_tx_count)
    || not (tpl.coinbase_value == m.last_value)

unfoldable pub remember : Memory → Str → MiningJob → Memory
unfolding evict
remember mem id job = evict (mem.order ++ id ∷ []) (insert id job mem.by_id) mem.dup_by_job

-- The critical section of `Poll`, with the built job.
unfoldable pub install : Manager → BlockTemplate → MiningJob → Manager
unfolding stamp_job remember prev_changed
install m tpl built =
    let counter = m.job_counter + 1 in
    let job = stamp_job built m.pool_id (job_id counter) (prev_changed m tpl) in
    record m {
      current = some job;
      memory = remember m.memory (job_id counter) job;
      job_counter = counter;
      last_prev = tpl.previous_block_hash;
      last_cur_time = tpl.cur_time;
      last_tx_count = tpl.tx_count;
      last_value = tpl.coinbase_value;
    }

pub data Polled : Type 0 where
  template_failed build_failed unchanged : Polled
  announced : Option (List Param) → Polled

unfoldable pub current_params : Manager → Option (List Param)
current_params m = elim m.current [
  | none ↦ none
  | some job ↦ if m.has_broadcaster then some job.notify_params else none
]

unfoldable pub poll :
    Manager → Option BlockTemplate → (BlockTemplate → Option MiningJob) → Manager × Polled
unfolding is_updated install current_params
poll m none build = (m, template_failed)
poll m (some tpl) build =
    if is_updated m tpl
    then elim (build tpl) [
      | none ↦ (m, build_failed)
      | some built ↦ (install m tpl built, announced (current_params (install m tpl built)))
    ]
    else (m, unchanged)

-- The current job's parameters for a miner that has just come, with cleanJobs set.
unfoldable pub job_notify : MiningJob → Option (List Param)
job_notify job = elim job.base [
  | some base ↦ some (notify_params (record base { clean_job = true }))
  | none ↦ if ltb 0 (length job.notify_params) then some job.notify_params else none
]

unfoldable pub current_notify : Manager → Option (List Param)
unfolding job_notify
current_notify m = elim m.current [ none ↦ none | some job ↦ job_notify job ]

unfoldable pub get : Manager → Str → Option MiningJob
get m id = lookup id m.memory.by_id
