-- ===== src/Coins/Coinbase.antt =====
-- internal/coins/bitcoinbase/coinbase.go: the coinbase transaction, split at the extranonce. The
-- integer fields that `BuildCoinbase` rejects unless positive are numbers, zero standing for every
-- rejected value; `tx_version` is the 32-bit pattern of the source's int32.
pub mod Laws
use icminers_stratum_v.Prelude.{
  ℕ, ◌+◌, List, [], ◌∷◌, ◌++◌, ltb, ◌==◌, ◌||◌, not, if◌then◌else◌, length, replicate, Result, ok,
  err, ◌>>=◌, ◌>>◌, fail_if,
}
use icminers_stratum_v.Coins.Bytes.{Bytes}
use icminers_stratum_v.Coins.VarInt.{append_uint32_le, append_uint64_le, append_var_int}
use icminers_stratum_v.Coins.Height.{encode_height_bip34}

pub record CoinbaseParts : Type 0 where
  pub coinb1 : Bytes
  pub coinb2 : Bytes
  pub extra_nonce_size : ℕ

pub record CoinbaseSpec : Type 0 where
  pub height : ℕ
  pub coinbase_value : ℕ
  pub payout_script : Bytes
  pub witness_commitment_script : Bytes
  pub tag : Bytes
  pub extra_nonce1_size : ℕ
  pub extra_nonce2_size : ℕ
  pub tx_version : ℕ

pub data CoinbaseError : Type 0 where
  invalid_height invalid_value empty_payout invalid_extra_nonce script_too_long bad_extra_nonce :
      CoinbaseError

abbrev pub max_script_sig_len : ℕ
max_script_sig_len = 100

unfoldable pub script_sig_len : CoinbaseSpec → ℕ
script_sig_len spec =
    length (encode_height_bip34 spec.height)
    + length spec.tag
    + (spec.extra_nonce1_size + spec.extra_nonce2_size)

-- Everything before the extranonce placeholder.
unfoldable pub build_coinb1 : CoinbaseSpec → Bytes
unfolding append_uint32_le script_sig_len
build_coinb1 spec =
    let version = if spec.tx_version == 0 then 2 else spec.tx_version in
    let input = (append_uint32_le [] version ++ 1 ∷ []) ++ replicate 32 0 in
    ((append_uint32_le input 0xffffffff ++ script_sig_len spec ∷ [])
      ++ encode_height_bip34 spec.height)
    ++ spec.tag

-- One output: its value, the length of its script, and the script.
unfoldable pub tx_output : ℕ → Bytes → Bytes
tx_output value script = append_var_int (append_uint64_le [] value) (length script) ++ script

abbrev pub concat_bytes : List Bytes → Bytes
concat_bytes [] = []
concat_bytes (b ∷ bs) = b ++ concat_bytes bs

unfoldable pub outputs : CoinbaseSpec → List Bytes
outputs spec =
    let payout = tx_output spec.coinbase_value spec.payout_script in
    if ltb 0 (length spec.witness_commitment_script)
    then payout ∷ tx_output 0 spec.witness_commitment_script ∷ []
    else payout ∷ []

-- Everything after the placeholder.
unfoldable pub build_coinb2 : CoinbaseSpec → Bytes
build_coinb2 spec =
    append_uint32_le
      (append_var_int (append_uint32_le [] 0xffffffff) (length (outputs spec))
        ++ concat_bytes (outputs spec))
      0

unfoldable pub build_coinbase : CoinbaseSpec → Result CoinbaseError CoinbaseParts
build_coinbase spec = do
  fail_if (spec.height == 0) invalid_height
  fail_if (spec.coinbase_value == 0) invalid_value
  fail_if (length spec.payout_script == 0) empty_payout
  fail_if (spec.extra_nonce1_size == 0 || spec.extra_nonce2_size == 0) invalid_extra_nonce
  fail_if (ltb max_script_sig_len (script_sig_len spec)) script_too_long
  ok (record {
    coinb1 = build_coinb1 spec;
    coinb2 = build_coinb2 spec;
    extra_nonce_size = spec.extra_nonce1_size + spec.extra_nonce2_size;
  })

unfoldable pub assemble : CoinbaseParts → Bytes → Bytes → Result CoinbaseError Bytes
assemble p extra_nonce1 extra_nonce2 = do
  fail_if (not (length extra_nonce1 + length extra_nonce2 == p.extra_nonce_size)) bad_extra_nonce
  ok (((p.coinb1 ++ extra_nonce1) ++ extra_nonce2) ++ p.coinb2)
