-- ===== src/Adapter.antt =====
-- internal/coins/bitcoinlike/adapter.go with the types of internal/coins/adapter.go: jobs from
-- templates, and the validation of submitted shares. A coin's hashes are parameters; `none` is the
-- error of a hash function.
pub mod Laws
pub mod Candidate
pub mod Setup
mod Tests
use icminers_stratum_v.Prelude.{map_err}
use icminers_stratum_v.Prelude.{
  ℕ, ◌+◌, List, [], Bool, true, false, ◌&&◌, not, ltb, leb, ◌==◌, if◌then◌else◌, length, Option,
  none, some, Str, Result, ok, err, ◌>>=◌, ◌>>◌, fail_if, or_fail,
}
use icminers_stratum_v.Prelude.Floats.{Floats}
use icminers_stratum_v.Coins.Bytes.{Bytes, be_value, hex_decode, hex_encode}
use icminers_stratum_v.Coins.Merkle.{double_sha256, fold_branch}
use icminers_stratum_v.Coins.Target.{HexError, bits_to_target, target_to_bytes, reverse_bytes}
use icminers_stratum_v.Coins.Coinbase.{CoinbaseError, CoinbaseSpec, assemble}
use icminers_stratum_v.Coins.Template.{Template, is_empty}
use icminers_stratum_v.Coins.Notify.{Job, JobError, Param, new_job}
use icminers_stratum_v.Coins.Block.{
  BlockError, SubmitFields, parse_submit_hex, build_header, assemble_block, and_not,
}
use icminers_stratum_v.Vardiff.Difficulty.{
  hash_to_big, meets_target, difficulty_to_target, share_difficulty,
}

-- What differs between the coins, and the pool's own settings.
pub record Coin : Type 0 where
  pub sha256 : Bytes → Bytes
  pub pow : Bytes → Option Bytes
  pub identity_hash : Bytes → Option Bytes
  pub version_rolling_mask : ℕ
  pub payout_script : Bytes
  pub tag : Bytes
  pub en1_size : ℕ
  pub en2_size : ℕ

pub record MiningJob : Type 0 where
  pub job_id : Str
  pub pool_id : Str
  pub height : ℕ
  pub clean_jobs : Bool
  pub network_target : Bytes
  pub coinbase_value : ℕ
  pub notify_params : List Param
  -- `Raw["bitcoinbase"]`, if it is there and holds a bitcoinbase job.
  pub base : Option Job

pub record ShareSubmit (F : Type 0) : Type 0 where
  pub worker : Str
  pub job_id : Str
  pub extra_nonce2 : Str
  pub n_time : Str
  pub nonce : Str
  pub version_bits : Str
  pub extra_nonce1 : Str
  pub worker_diff : F
  pub user_agent : Str
  pub remote_ip : Str

pub record ShareResult (F : Type 0) : Type 0 where
  pub valid : Bool
  pub block_candidate : Bool
  pub block_hash : Str
  pub block_hex : Str
  pub share_diff : F

pub data ShareError : Type 0 where
  no_payload extra_nonce1_size n_time_too_old n_time_too_new version_outside_mask : ShareError
  pow_failed identity_failed : ShareError
  bad_submit bad_header bad_block : BlockError → ShareError
  bad_coinbase : CoinbaseError → ShareError

pub data BuildError : Type 0 where
  bad_commitment target_too_large : BuildError
  bad_job : JobError → BuildError
  bad_bits : HexError → BuildError

unfoldable pub witness_commitment : Template → Result BuildError Bytes
witness_commitment base =
    if is_empty base.default_witness_commitment
    then ok []
    else or_fail (hex_decode base.default_witness_commitment) bad_commitment

abbrev pub coinbase_spec : Coin → Template → Bytes → CoinbaseSpec
coinbase_spec coin base commitment = record {
  height = base.height;
  coinbase_value = base.coinbase_value;
  payout_script = coin.payout_script;
  witness_commitment_script = commitment;
  tag = coin.tag;
  extra_nonce1_size = coin.en1_size;
  extra_nonce2_size = coin.en2_size;
  tx_version = 2;
}

-- `BuildMiningJob` from the parsed template; `target_too_large` is the panic of `FillBytes`.
unfoldable pub build_mining_job : Coin → Template → Result BuildError MiningJob
unfolding witness_commitment
build_mining_job coin base = do
  commitment ← witness_commitment base
  job ← map_err bad_job (new_job coin.sha256 [] base (coinbase_spec coin base commitment) false)
  target ← map_err bad_bits (bits_to_target base.bits)
  bytes ← or_fail (target_to_bytes target) target_too_large
  ok (record {
    job_id = [];
    pool_id = [];
    height = base.height;
    clean_jobs = false;
    network_target = bytes;
    coinbase_value = base.coinbase_value;
    notify_params = [];
    base = some job;
  })

module _ (fl : Floats) (coin : Coin) where
  open fl use {F}

  -- The guards of `ValidateShare` on the decoded fields.
  unfoldable pub check_fields : Job → SubmitFields → Result ShareError (Unit {0})
  check_fields base f = do
    fail_if (not (length f.extra_nonce1 == coin.en1_size)) extra_nonce1_size
    fail_if (ltb 0 base.min_time && ltb f.n_time base.min_time) n_time_too_old
    fail_if (ltb (base.cur_time + 7200) f.n_time) n_time_too_new
    fail_if
        (f.has_version
          && (not (coin.version_rolling_mask == 0)
              && not (and_not f.version_bits coin.version_rolling_mask == 0)))
        version_outside_mask

  -- The result for a header: a block only where the hash meets the network target.
  unfoldable pub judge :
      MiningJob
      → ShareSubmit F
      → Job
      → Bytes
      → Bytes
      → Bytes
      → Bytes
      → Result ShareError (ShareResult F)
  judge job submit base coinbase_tx header pow_le id_le =
      let pow_big = hash_to_big pow_le in
      let valid = meets_target pow_big (difficulty_to_target fl submit.worker_diff) in
      let diff = share_difficulty fl pow_big in
      if meets_target pow_big (be_value job.network_target)
      then (do
        block_hex ← map_err bad_block (assemble_block header coinbase_tx base)
        ok (record {
          valid = valid;
          block_candidate = true;
          block_hash = hex_encode (reverse_bytes id_le);
          block_hex = block_hex;
          share_diff = diff;
        }))
      else ok (record {
        valid = valid;
        block_candidate = false;
        block_hash = [];
        block_hex = [];
        share_diff = diff;
      })

  unfoldable pub validate_share : MiningJob → ShareSubmit F → Result ShareError (ShareResult F)
  unfolding check_fields judge
  validate_share job submit = do
    base ← or_fail job.base no_payload
    fields ← map_err bad_submit (
        parse_submit_hex submit.extra_nonce1 submit.extra_nonce2 submit.n_time submit.nonce
          submit.version_bits coin.en2_size)
    check_fields base fields
    coinbase_tx ←
        map_err bad_coinbase (assemble base.coinbase_parts fields.extra_nonce1 fields.extra_nonce2)
    let root = fold_branch coin.sha256 (double_sha256 coin.sha256 coinbase_tx) base.merkle_branch_le
    header ← map_err bad_header (build_header base root fields coin.version_rolling_mask)
    pow_le ← or_fail (coin.pow header) pow_failed
    id_le ← or_fail (coin.identity_hash header) identity_failed
    judge job submit base coinbase_tx header pow_le id_le
