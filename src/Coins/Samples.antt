-- ===== src/Coins/Samples.antt =====
-- Concrete data for the tests: a hash of 32 bytes in place of SHA-256, the hex of a hash, and a
-- template with a witness commitment and three transactions.
use icminers_stratum_v.Prelude.{
  List, ℕ, ◌%◌, [], ◌∷◌, ◌++◌, replicate, sum, codes, Str, map, true, false,
}
use icminers_stratum_v.Coins.Bytes.{Bytes, hex_encode}
use icminers_stratum_v.Coins.Coinbase.{CoinbaseSpec, CoinbaseParts, build_coinb1, build_coinb2}
use icminers_stratum_v.Coins.Merkle.{double_sha256}
use icminers_stratum_v.Coins.Notify.{Job, hex8}
use icminers_stratum_v.Coins.Block.{SubmitFields, layout_header}
use icminers_stratum_v.Coins.Template.{Template, TemplateTx}

abbrev pub checksum : Bytes → Bytes
checksum b = sum b % 256 ∷ replicate 31 7

abbrev pub zeros_text : ℕ → Str
zeros_text n = replicate n b'0'

abbrev pub hash_text : Str
hash_text = codes "00112233445566778899aabbccddeeff" ++ zeros_text 32

abbrev pub sample_tx : Str → TemplateTx
sample_tx id = record { tx_data = codes "a1b2c3"; txid = id; hash = []; fee = 10; weight = 400 }

abbrev pub template : Template
template = record {
  version = 0x20000000;
  rules = [];
  previous_block_hash = hash_text;
  transactions = sample_tx hash_text ∷ sample_tx (zeros_text 64) ∷ sample_tx hash_text ∷ [];
  coinbase_value = 5000000000;
  target = [];
  min_time = 1700000000;
  cur_time = 1700000100;
  bits = codes "207fffff";
  height = 300000;
  default_witness_commitment = codes "6a24aa21a9ed";
}

abbrev pub spec : CoinbaseSpec
spec = record {
  height = 300000;
  coinbase_value = 5000000000;
  payout_script = 0x51 ∷ [];
  witness_commitment_script = [];
  tag = 1 ∷ 2 ∷ 3 ∷ [];
  extra_nonce1_size = 4;
  extra_nonce2_size = 4;
  tx_version = 2;
}

abbrev pub parts : CoinbaseParts
parts = record { coinb1 = build_coinb1 spec; coinb2 = build_coinb2 spec; extra_nonce_size = 8 }

abbrev pub coinbase : Bytes
coinbase = ((parts.coinb1 ++ 1 ∷ 2 ∷ 3 ∷ 4 ∷ []) ++ 5 ∷ 6 ∷ 7 ∷ 8 ∷ []) ++ parts.coinb2

abbrev pub hash_le : Bytes
hash_le =
    replicate 16 0
    ++ (0xff ∷ 0xee ∷ 0xdd ∷ 0xcc ∷ 0xbb ∷ 0xaa ∷ 0x99 ∷ 0x88 ∷ 0x77 ∷ 0x66 ∷ 0x55 ∷ 0x44 ∷ 0x33
        ∷ 0x22 ∷ 0x11 ∷ 0x00 ∷ [])

abbrev pub branch : List Bytes
branch = hash_le ∷ double_sha256 checksum (replicate 32 0 ++ hash_le) ∷ []

abbrev pub base_job : Job
base_job = record {
  job_id = [];
  height = 300000;
  clean_job = false;
  prev_hash_stratum = zeros_text 32 ++ codes "ccddeeff8899aabb4455667700112233";
  prev_hash_display = hash_text;
  coinb1_hex = hex_encode parts.coinb1;
  coinb2_hex = hex_encode parts.coinb2;
  merkle_branch_hex = map hex_encode branch;
  version_hex = hex8 0x20000000;
  bits_hex = codes "207fffff";
  n_time_hex = hex8 1700000100;
  cur_time = 1700000100;
  min_time = 1700000000;
  coinbase_parts = parts;
  has_witness_commitment = false;
  tx_data_hex = codes "a1b2c3" ∷ codes "a1b2c3" ∷ codes "a1b2c3" ∷ [];
  merkle_branch_le = branch;
}

abbrev pub fields : SubmitFields
fields = record {
  extra_nonce1 = 1 ∷ 2 ∷ 3 ∷ 4 ∷ [];
  extra_nonce2 = 5 ∷ 6 ∷ 7 ∷ 8 ∷ [];
  n_time = 1700000200;
  nonce = 77;
  version_bits = 0x00002000;
  has_version = true;
}

abbrev pub header : Bytes
header = layout_header 0x20002000 hash_le (replicate 32 1) 1700000200 0x207fffff 77
