-- ===== src/Coins/Notify.antt =====
-- internal/coins/bitcoinbase/notify.go: a mining job derived from a template, and the parameters
-- of mining.notify. SHA-256 is a parameter. The rounds of the merkle loops are bounded, and
-- `out_of_fuel`, which the source does not have, never occurs (`new_job-ne-out_of_fuel`).
pub mod Laws
use icminers_stratum_v.Prelude.{map_err}
use mathlib.Core.List.{reverse}
use icminers_stratum_v.Prelude.{
  ℕ, suc, ◌%◌, ◌^◌, List, [], ◌∷◌, map, Bool, ltb, length, Str, Result, ok, err, ◌>>=◌, ◌>>◌,
  or_fail,
}
use icminers_stratum_v.Coins.Bytes.{Bytes, hex_encode, le_bytes}
use icminers_stratum_v.Coins.Merkle.{merkle_branch}
use icminers_stratum_v.Coins.Target.{HexError, hash_le_from_display_hex, prev_hash_to_stratum}
use icminers_stratum_v.Coins.Coinbase.{CoinbaseSpec, CoinbaseParts, CoinbaseError, build_coinbase}
use icminers_stratum_v.Coins.Template.{Template, TemplateTx, tx_ids}

pub record Job : Type 0 where
  pub job_id : Str
  pub height : ℕ
  pub clean_job : Bool
  pub prev_hash_stratum : Str
  pub prev_hash_display : Str
  pub coinb1_hex : Str
  pub coinb2_hex : Str
  pub merkle_branch_hex : List Str
  pub version_hex : Str
  pub bits_hex : Str
  pub n_time_hex : Str
  pub cur_time : ℕ
  pub min_time : ℕ
  pub coinbase_parts : CoinbaseParts
  pub has_witness_commitment : Bool
  pub tx_data_hex : List Str
  pub merkle_branch_le : List Bytes

pub data JobError : Type 0 where
  bad_coinbase : CoinbaseError → JobError
  bad_txid bad_prev_hash : HexError → JobError
  out_of_fuel : JobError

-- `fmt.Sprintf("%08x", uint32(v))`
unfoldable pub hex8 : ℕ → Str
hex8 v = hex_encode (reverse (le_bytes 4 v))

unfoldable pub tx_hashes_le : List Str → Result JobError (List Bytes)
tx_hashes_le [] = ok []
tx_hashes_le (id ∷ ids) = do
  le ← map_err bad_txid (hash_le_from_display_hex id)
  rest ← tx_hashes_le ids
  ok (le ∷ rest)

abbrev pub tx_datas : List TemplateTx → List Str
tx_datas = map (λ tx. tx.tx_data)

unfoldable pub new_job :
    (Bytes → Bytes) → Str → Template → CoinbaseSpec → Bool → Result JobError Job
new_job sha256 job_id tpl spec clean = do
  parts ← map_err bad_coinbase (build_coinbase spec)
  hashes ← tx_hashes_le (tx_ids tpl.transactions)
  branch ← or_fail (merkle_branch sha256 hashes) out_of_fuel
  prev_stratum ← map_err bad_prev_hash (prev_hash_to_stratum tpl.previous_block_hash)
  ok (record {
    job_id = job_id;
    height = tpl.height;
    clean_job = clean;
    prev_hash_stratum = prev_stratum;
    prev_hash_display = tpl.previous_block_hash;
    coinb1_hex = hex_encode parts.coinb1;
    coinb2_hex = hex_encode parts.coinb2;
    merkle_branch_hex = map hex_encode branch;
    version_hex = hex8 tpl.version;
    bits_hex = tpl.bits;
    n_time_hex = hex8 tpl.cur_time;
    cur_time = tpl.cur_time;
    min_time = tpl.min_time;
    coinbase_parts = parts;
    has_witness_commitment = ltb 0 (length spec.witness_commitment_script);
    tx_data_hex = tx_datas tpl.transactions;
    merkle_branch_le = branch;
  })

-- A positional parameter of mining.notify.
pub data Param : Type 0 where
  text : Str → Param
  texts : List Str → Param
  flag : Bool → Param

unfoldable pub notify_params : Job → List Param
notify_params j =
    text j.job_id
    ∷ text j.prev_hash_stratum
    ∷ text j.coinb1_hex
    ∷ text j.coinb2_hex
    ∷ texts j.merkle_branch_hex
    ∷ text j.version_hex
    ∷ text j.bits_hex
    ∷ text j.n_time_hex
    ∷ flag j.clean_job
    ∷ []
