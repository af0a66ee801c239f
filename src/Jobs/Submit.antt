-- ===== src/Jobs/Submit.antt =====
-- internal/jobs/submit.go and recorder.go: the submit path. `SubmitShare` holds the lock twice:
-- to look the job up, and to test and mark the share. The two sections are steps of their own
-- here; `submit_share` runs them with nothing in between. What leaves the manager (the detached
-- submitblock, and the recorder's two calls) is a list of events; the recorder's clock is an
-- argument. The adapter's `ValidateShare` is a parameter, as in the source.
use icminers_stratum_v.Prelude.{
  str_eq, ℕ, List, [], ◌∷◌, ◌++◌, Bool, true, false, ◌&&◌, ◌||◌, not, ◌==◌, if◌then◌else◌, length,
  Option, none, some, Str, list_beq, Result, ok, err,
}
use icminers_stratum_v.Prelude.Dict.{lookup, insert}
use icminers_stratum_v.Prelude.Floats.{Floats}
use icminers_stratum_v.Coins.Bytes.{be_value}
use icminers_stratum_v.Coins.Template.{is_empty}
use icminers_stratum_v.Vardiff.Difficulty.{target_to_difficulty}
use icminers_stratum_v.Adapter.{MiningJob, ShareSubmit, ShareResult, ShareError}
use icminers_stratum_v.Jobs.Manager.{Manager, get}

pub data SubmitError : Type 0 where
  job_not_found duplicate_share low_difficulty : SubmitError
  invalid : ShareError → SubmitError

pub record ShareEvent (F : Type 0) : Type 0 where
  pub pool_id : Str
  pub block_height : ℕ
  pub share_diff : F
  pub worker_diff : F
  pub network_difficulty : F
  pub miner : Str
  pub worker : Str
  pub user_agent : Str
  pub ip_address : Str
  pub created : ℕ
  pub is_block_candidate : Bool

pub record BlockEvent (F : Type 0) : Type 0 where
  pub pool_id : Str
  pub block_height : ℕ
  pub network_difficulty : F
  pub miner : Str
  pub worker : Str
  pub hash : Str
  pub reward_sats : ℕ
  pub created : ℕ

pub data Event (F : Type 0) : Type 0 where
  submit_block : Str → Str → ℕ → Event F
  record_share : ShareEvent F → Event F
  record_block : BlockEvent F → Event F

-- The parts before and behind the last full stop, if there is one.
unfoldable pub split_last : Str → Option (Str × Str)
split_last [] = none
split_last (c ∷ s) = elim (split_last s) [
  | some (a, b) ↦ some (c ∷ a, b)
  | none ↦ if c == b'.' then some ([], s) else none
]

unfoldable pub split_worker : Str → Str × Str
split_worker full = elim (split_last full) [
  | some (a, b) ↦ if is_empty a then (full, []) else (a, b)
  | none ↦ (full, [])
]

-- `strings.Join([]string{…}, ":")`
unfoldable pub join : List Str → Str
join [] = []
join (s ∷ []) = s
join (s ∷ t ∷ rest) = s ++ b':' ∷ join (t ∷ rest)

module _ {F : Type 0} where
  -- Every field that changes the header.
  abbrev pub key_fields : ShareSubmit F → List Str
  key_fields s = s.extra_nonce1 ∷ s.extra_nonce2 ∷ s.n_time ∷ s.nonce ∷ s.version_bits ∷ []

  unfoldable pub dup_key : ShareSubmit F → Str
  dup_key s = join (key_fields s)

unfoldable pub contains : Str → List Str → Bool
contains k [] = false
contains k (x ∷ xs) = list_beq x k || contains k xs

abbrev pub seen_of : Option (List Str) → List Str
seen_of none = []
seen_of (some seen) = seen

-- The second critical section: whether the share is a duplicate; if not, it is marked.
unfoldable pub mark : Manager → Str → Str → Manager × Bool
mark m id key =
    let seen = seen_of (lookup id m.memory.dup_by_job) in
    if contains key seen then (m, true) else (
      record m {
        memory = record (m.memory) { dup_by_job = insert id (key ∷ seen) m.memory.dup_by_job };
      },
      false,
    )

module _ (fl : Floats) where
  open fl use {F, of_ℕ}

  unfoldable pub network_difficulty : MiningJob → F
  network_difficulty job =
      if length job.network_target == 0
      then of_ℕ 0
      else target_to_difficulty fl (be_value job.network_target)

  -- `record`: the share, and the block of a candidate.
  unfoldable pub record_events :
      Manager → MiningJob → ShareSubmit F → ShareResult F → ℕ → List (Event F)
  unfolding network_difficulty
  record_events m job s r now =
      let (miner, worker) = split_worker s.worker in
      let share = record_share (record {
        pool_id = m.pool_id;
        block_height = job.height;
        share_diff = r.share_diff;
        worker_diff = s.worker_diff;
        network_difficulty = network_difficulty job;
        miner = miner;
        worker = worker;
        user_agent = s.user_agent;
        ip_address = s.remote_ip;
        created = now;
        is_block_candidate = r.block_candidate;
      }) in
      let block = record_block (record {
        pool_id = m.pool_id;
        block_height = job.height;
        network_difficulty = network_difficulty job;
        miner = miner;
        worker = worker;
        hash = r.block_hash;
        reward_sats = job.coinbase_value;
        created = now;
      }) in
      if m.has_recorder then (if r.block_candidate then share ∷ block ∷ [] else share ∷ []) else []

  -- Behind the validation: what is emitted and returned.
  unfoldable pub conclude :
      Manager
      → MiningJob
      → ShareSubmit F
      → ℕ
      → Result ShareError (ShareResult F)
      → List (Event F) × Result SubmitError (ShareResult F)
  unfolding record_events
  conclude m job s now (err e) = ([], err (invalid e))
  conclude m job s now (ok r) =
      let candidate =
        if r.block_candidate then submit_block r.block_hash r.block_hex job.height ∷ [] else [] in
      if not r.valid && not r.block_candidate
      then (candidate, err low_difficulty)
      else (candidate ++ record_events m job s r now, ok r)

  unfoldable pub submit_found :
      (MiningJob → ShareSubmit F → Result ShareError (ShareResult F))
      → Manager
      → MiningJob
      → ShareSubmit F
      → ℕ
      → Manager × List (Event F) × Result SubmitError (ShareResult F)
  unfolding mark conclude
  submit_found validate m job s now =
      let (m', dup) = mark m s.job_id (dup_key s) in
      let (events, result) = conclude m' job s now (validate job s) in
      if dup then (m', [], err duplicate_share) else (m', events, result)

  unfoldable pub submit_share :
      (MiningJob → ShareSubmit F → Result ShareError (ShareResult F))
      → Manager
      → ShareSubmit F
      → ℕ
      → Manager × List (Event F) × Result SubmitError (ShareResult F)
  unfolding submit_found
  submit_share validate m s now = elim (get m s.job_id) [
    | none ↦ (m, [], err job_not_found)
    | some job ↦ submit_found validate m job s now
  ]
