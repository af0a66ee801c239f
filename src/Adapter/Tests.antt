-- ===== src/Adapter/Tests.antt =====
-- Runs of the adapter: a share that is a block, and a digest that only one byte order accepts.
use icminers_stratum_v.Prelude.{
  ◌+◌, ◌≡◌, ◌≢◌, refl, [], ◌∷◌, ◌++◌, arith, ◌≤◌, length, replicate, ok, some, Str, codes, true,
  false, leb, take, drop,
}
use icminers_stratum_v.Adapter.Candidate.{validate_share-read_block}
use icminers_stratum_v.Vardiff.Difficulty.{
  hash_to_big, meets_target, difficulty_to_target, share_difficulty,
}
use icminers_stratum_v.Coins.Notify.{hex8}
use icminers_stratum_v.Coins.Block.{
  build_header, parse_submit_hex, append_txs, block_coinbase, SubmitFields, layout_header,
  assemble_block,
}
use icminers_stratum_v.Coins.Coinbase.{assemble, build_coinb1, build_coinb2, outputs, tx_output}
use icminers_stratum_v.Prelude.Floats.{ratios, frac, Ratio}
use icminers_stratum_v.Coins.Samples.{checksum, coinbase, base_job, branch, hash_le}
use icminers_stratum_v.Coins.VarInt.{append_var_int, append_uint64_le, read_var_int}
use icminers_stratum_v.Coins.Height.{encode_height_bip34}
use icminers_stratum_v.Coins.Bytes.{Bytes, hex_encode, hex_decode, be_value, le_value, IsBytes}
use icminers_stratum_v.Coins.Merkle.{double_sha256, fold_branch}
use icminers_stratum_v.Coins.Block.Laws.{slice}
use icminers_stratum_v.Coins.Target.{hash_le_from_display_hex, reverse_bytes}
use icminers_stratum_v.Adapter.{Coin, MiningJob, ShareSubmit, ShareResult, validate_share}
use icminers_stratum_v.Adapter.Laws.{Accepted, validate_share_sound, validate_share_drops_block}

abbrev coin : Bytes → Coin
coin digest = record {
  sha256 = checksum;
  pow = λ header. some digest;
  identity_hash = λ header. some (double_sha256 checksum header);
  version_rolling_mask = 0x1fffe000;
  payout_script = 0x51 ∷ [];
  tag = 1 ∷ 2 ∷ 3 ∷ [];
  en1_size = 4;
  en2_size = 4;
}

abbrev job : MiningJob
job = record {
  job_id = codes "1";
  pool_id = codes "btc";
  height = 300000;
  clean_jobs = true;
  network_target = 0x7f ∷ replicate 31 0xff;
  coinbase_value = 5000000000;
  notify_params = [];
  base = some base_job;
}

abbrev submit : ShareSubmit Ratio
submit = record {
  worker = codes "miner.rig";
  job_id = codes "1";
  extra_nonce2 = codes "05060708";
  n_time = codes "6553f1c8";
  nonce = codes "0000004d";
  version_bits = codes "00002000";
  extra_nonce1 = codes "01020304";
  worker_diff = frac 1 1;
  user_agent = [];
  remote_ip = [];
}

abbrev root : Bytes
root = fold_branch checksum (double_sha256 checksum coinbase) branch

abbrev header : Bytes
header = layout_header 0x20002000 hash_le root 1700000200 0x207fffff 77

abbrev fields : SubmitFields
fields = record {
  extra_nonce1 = 1 ∷ 2 ∷ 3 ∷ 4 ∷ [];
  extra_nonce2 = 5 ∷ 6 ∷ 7 ∷ 8 ∷ [];
  n_time = 1700000200;
  nonce = 77;
  version_bits = 0x00002000;
  has_version = true;
}

-- A digest below both targets, and one below the network target as a little-endian number only.
abbrev low : Bytes
low = replicate 4 0 ++ replicate 28 1

abbrev high_first : Bytes
high_first = 0xff ∷ replicate 31 0

abbrev block_hex : Str
block_hex =
    hex_encode (
      header ++ 4 ∷ coinbase ++ (0xa1 ∷ 0xb2 ∷ 0xc3 ∷ 0xa1 ∷ 0xb2 ∷ 0xc3 ∷ 0xa1 ∷ 0xb2 ∷ 0xc3 ∷ []))

abbrev found : ShareResult Ratio
found = record {
  valid = true;
  block_candidate = true;
  block_hash = hex_encode (reverse_bytes (double_sha256 checksum header));
  block_hex = block_hex;
  share_diff = share_difficulty ratios (be_value low);
}

abbrev missed : ShareResult Ratio
missed = record {
  valid = false;
  block_candidate = false;
  block_hash = [];
  block_hex = [];
  share_diff = share_difficulty ratios (be_value high_first);
}

block_found : validate_share ratios (coin low) job submit ≡ ok found
unfolding validate_share parse_submit_hex hex_decode assemble build_header fold_branch double_sha256
    hash_le_from_display_hex hex8 hex_encode layout_header reverse_bytes meets_target hash_to_big
    assemble_block block_coinbase append_txs difficulty_to_target append_var_int build_coinb1
    build_coinb2 encode_height_bip34 outputs tx_output append_uint64_le
block_found = refl

validate_share_sound_example :
    (a : Accepted ratios (coin low) job submit found) × (length a.header ≡ 80)
    × (hash_le_from_display_hex a.base.prev_hash_display ≡ ok (slice 4 32 a.header))
    × (slice 36 32 a.header
        ≡ fold_branch checksum (double_sha256 checksum a.coinbase_tx) a.base.merkle_branch_le)
    × (a.base.min_time ≤ a.fields.n_time)
    × (a.fields.n_time ≤ a.base.cur_time + 7200)
    × (true ≡ leb (be_value a.pow_le) (difficulty_to_target ratios (frac 1 1)))
    × (true ≡ leb (be_value a.pow_le) (be_value job.network_target))
validate_share_sound_example = validate_share_sound ratios (coin low) job submit found block_found

found-Accepted : Accepted ratios (coin low) job submit found
unfolding validate_share parse_submit_hex hex_decode assemble build_header fold_branch double_sha256
    hash_le_from_display_hex hex8 hex_encode layout_header reverse_bytes meets_target hash_to_big
    assemble_block block_coinbase append_txs difficulty_to_target append_var_int build_coinb1
    build_coinb2 encode_height_bip34 outputs tx_output append_uint64_le
found-Accepted = record {
  base = base_job;
  fields = fields;
  coinbase_tx = coinbase;
  header = header;
  pow_le = low;
  id_le = double_sha256 checksum header;
  has_base = refl;
  parsed = refl;
  checked = refl;
  assembled = refl;
  has_header = refl;
  hashed = refl;
  identified = refl;
  judged = refl;
}

header-IsBytes : IsBytes header
unfolding layout_header reverse_bytes fold_branch double_sha256
header-IsBytes = omega arith

coinbase-IsBytes : IsBytes coinbase
unfolding build_coinb1 build_coinb2 encode_height_bip34 outputs tx_output append_uint64_le
    append_var_int
coinbase-IsBytes = omega arith

id-IsBytes : IsBytes (reverse_bytes (double_sha256 checksum header))
unfolding layout_header reverse_bytes double_sha256
id-IsBytes = omega arith

validate_share-read_block_example :
    (block coinbase raw pow id : Bytes) × (hex_decode found.block_hex ≡ some block)
    × ((coin low).pow (take 80 block) ≡ some pow)
    × (be_value pow ≤ be_value job.network_target)
    × ((coin low).identity_hash (take 80 block) ≡ some id)
    × (hex_decode found.block_hash ≡ some (reverse_bytes id))
    × (block_coinbase found-Accepted.coinbase_tx found-Accepted.base ≡ ok coinbase)
    × (slice 36 32 (take 80 block)
        ≡ fold_branch checksum
            (double_sha256 checksum found-Accepted.coinbase_tx)
            found-Accepted.base.merkle_branch_le)
    × (read_var_int (drop 80 block)
        ≡ some (1 + length found-Accepted.base.tx_data_hex, coinbase ++ raw))
unfolding found-Accepted
validate_share-read_block_example =
    validate_share-read_block ratios (coin low) job submit found found-Accepted refl header-IsBytes
      coinbase-IsBytes (omega arith) id-IsBytes

accepted : Accepted ratios (coin high_first) job submit missed
unfolding validate_share parse_submit_hex hex_decode assemble build_header fold_branch double_sha256
    hash_le_from_display_hex hex8 hex_encode layout_header reverse_bytes meets_target hash_to_big
    difficulty_to_target
accepted = record {
  base = base_job;
  fields = fields;
  coinbase_tx = coinbase;
  header = header;
  pow_le = high_first;
  id_le = double_sha256 checksum header;
  has_base = refl;
  parsed = refl;
  checked = refl;
  assembled = refl;
  has_header = refl;
  hashed = refl;
  identified = refl;
  judged = refl;
}

validate_share_drops_block_example : false ≢ leb (le_value high_first) (be_value job.network_target)
unfolding accepted
validate_share_drops_block_example =
    validate_share_drops_block ratios (coin high_first) job submit missed accepted (omega arith)
      (omega arith)
