-- ===== src/Jobs/Tests.antt =====
-- Runs of a pool's jobs: two polls, a share and its repetition, and a share whose job is gone.
use icminers_stratum_v.Jobs.Registry
use icminers_stratum_v.Prelude.{
  str_eq, ◌-◌, ◌+◌, ◌≡◌, ◌≢◌, refl, [], ◌∷◌, ◌++◌, arith, ap, length, drop, Result, ok, err, some,
  none, ℕ, Str, codes, true, false, Option, list_beq, List,
}
use icminers_stratum_v.Jobs.Repeats.{
  Step, submitted, Stays, take_step, take_steps, submit_share-take_steps,
}
use icminers_stratum_v.Jobs.Memory.{is_some, Inv}
use icminers_stratum_v.Jobs.Ids.{job_id, read_id, read_id-job_id}
use icminers_stratum_v.Prelude.Dict.{insert, lookup}
use icminers_stratum_v.Prelude.Floats.{ratios, frac, Ratio}
use icminers_stratum_v.Adapter.{MiningJob, ShareSubmit, ShareResult, ShareError}
use icminers_stratum_v.Jobs.Manager.{
  Manager, BlockTemplate, new_manager, poll, get, is_updated, stamp_job, prev_changed,
  current_notify,
}
use icminers_stratum_v.Jobs.Submit.{SubmitError, contains, submit_share, dup_key, join}
use icminers_stratum_v.Jobs.Invariant.{poll-Inv, poll-get, new_manager-Inv}
use icminers_stratum_v.Jobs.Duplicates.{IsPlain}
use icminers_stratum_v.Jobs.Registry.{Registry}
use icminers_stratum_v.Jobs.Repeats as Repeats

abbrev template : ℕ → BlockTemplate
template time = record {
  previous_block_hash = codes "ab";
  cur_time = time;
  tx_count = 0;
  coinbase_value = 50;
}

abbrev built : MiningJob
built = record {
  job_id = [];
  pool_id = [];
  height = 7;
  clean_jobs = false;
  network_target = 1 ∷ [];
  coinbase_value = 50;
  notify_params = [];
  base = none;
}

abbrev build : BlockTemplate → Option MiningJob
build tpl = some built

abbrev start : Manager
start = new_manager (codes "btc")

abbrev polled : Manager
polled = (poll start (some (template 1)) build).0

abbrev share : Str → ShareSubmit Ratio
share worker = record {
  worker = worker;
  job_id = job_id 1;
  extra_nonce2 = codes "01";
  n_time = codes "02";
  nonce = codes "03";
  version_bits = [];
  extra_nonce1 = codes "04";
  worker_diff = frac 1 1;
  user_agent = [];
  remote_ip = [];
}

abbrev accept : MiningJob → ShareSubmit Ratio → Result ShareError (ShareResult Ratio)
accept job s = ok (record {
  valid = true;
  block_candidate = false;
  block_hash = [];
  block_hex = [];
  share_diff = frac 2 1;
})

id_text : job_id 300 ≡ codes "12c"
unfolding job_id
id_text = refl

few_issued : polled.job_counter ≡ 1
unfolding poll new_manager list_beq
few_issued = refl

poll-Inv_example : Inv polled
unfolding new_manager
poll-Inv_example =
    poll-Inv start (some (template 1)) build (omega arith) (new_manager-Inv (codes "btc"))

polled-Inv : Inv polled
unfolding new_manager
polled-Inv = poll-Inv start (some (template 1)) build (omega arith) (new_manager-Inv (codes "btc"))

first_updated : is_updated start (template 1) ≡ true
unfolding is_updated new_manager list_beq
first_updated = refl

second_updated : is_updated polled (template 2) ≡ true
unfolding is_updated poll new_manager list_beq
second_updated = refl

poll-get_example :
    let m' = (poll start (some (template 1)) build).0 in
    (contains (job_id 1) start.memory.order ≡ false)
    × (m'.current
        ≡ some (stamp_job built (codes "btc") (job_id 1) (prev_changed start (template 1))))
    × (get m' (job_id 1)
        ≡ some (stamp_job built (codes "btc") (job_id 1) (prev_changed start (template 1))))
    × (m'.memory.order
        ≡ drop (length start.memory.order + 1 - 8) (start.memory.order ++ job_id 1 ∷ []))
unfolding new_manager
poll-get_example =
    poll-get start (template 1) build built (omega arith) (new_manager-Inv (codes "btc"))
      first_updated refl

other_id : job_id 1 ≢ job_id 2
other_id =
    λ e. omega (arith, ap read_id e, read_id-job_id 1 (omega arith), read_id-job_id 2 (omega arith))

still_there : contains (job_id 1) (poll polled (some (template 2)) build).0.memory.order ≡ true
unfolding contains job_id poll new_manager list_beq
still_there = refl

found_job : get polled (job_id 1) ≡ some (stamp_job built (codes "btc") (job_id 1) true)
unfolding get poll new_manager job_id list_beq lookup insert
found_job = refl

-- Another miner's share and the next template come in between.
abbrev between : List (Step Ratio)
between =
    submitted (record (share (codes "e.f")) { nonce = codes "00000007" }) 6
    ∷ Repeats.polled (some (template 2)) build
    ∷ []

abbrev after_first : Manager
after_first = (submit_share ratios accept polled (share (codes "a.b")) 5).0

between-Stays : Stays ratios accept (job_id 1) between after_first
unfolding Stays take_step submit_share poll new_manager get job_id list_beq lookup insert contains
    dup_key join
between-Stays = (omega arith, refl, (omega arith, refl, tt))

submit_share-take_steps_example :
    let m' = take_steps ratios accept between after_first in
    submit_share ratios accept m' (share (codes "c.d")) 9
    ≡ (m', [], err SubmitError.duplicate_share)
submit_share-take_steps_example =
    submit_share-take_steps ratios accept polled (share (codes "a.b")) (share (codes "c.d")) 5 9
      between polled-Inv (ap is_some found_job) refl refl between-Stays

plain : IsPlain (share (codes "a.b"))
unfolding IsPlain
plain = (refl, refl, refl, refl, refl)

abbrev later : Manager
later = record start { job_counter = 9 }

abbrev pools : Registry
pools = (codes "btc", polled) ∷ (codes "ltc", new_manager (codes "ltc")) ∷ []

abbrev set_up : Registry
set_up =
    Registry.set_broadcaster (Registry.add (Registry.add [] polled) (new_manager (codes "ltc")))

routed : Registry.get set_up (codes "btc") ≡ some (record polled { has_broadcaster = true })
unfolding Registry.get Registry.add Registry.set_broadcaster poll new_manager list_beq lookup insert
routed = refl

notified : Registry.current_notify set_up (codes "ltc") ≡ none
unfolding Registry.current_notify Registry.add Registry.set_broadcaster new_manager list_beq poll
    lookup insert current_notify
notified = refl
