-- ===== src/Coins/Block.antt =====
-- internal/coins/bitcoinbase/block.go: the fields of mining.submit, the 80-byte header and the
-- block that submitblock takes.
pub mod Laws
pub mod Assembly
use icminers_stratum_v.Prelude.{map_err}
use Prim.Native.Nat.{bit_and, bit_or, bit_xor}
use icminers_stratum_v.Prelude.{
  ℕ, ◌+◌, ◌-◌, List, [], ◌∷◌, ◌++◌, Bool, true, false, ltb, ◌==◌, ◌||◌, not, if◌then◌else◌, length,
  take, drop, replicate, Str, Result, ok, err, ◌>>=◌, ◌>>◌, fail_if, or_fail,
}
use icminers_stratum_v.Coins.Bytes.{Bytes, be_value, hex_decode, hex_encode}
use icminers_stratum_v.Coins.VarInt.{append_uint32_le, append_var_int}
use icminers_stratum_v.Coins.Target.{HexError, hash_le_from_display_hex}
use icminers_stratum_v.Coins.Template.{is_empty}
use icminers_stratum_v.Coins.Notify.{Job}

pub record SubmitFields : Type 0 where
  pub extra_nonce1 : Bytes
  pub extra_nonce2 : Bytes
  pub n_time : ℕ
  pub nonce : ℕ
  pub version_bits : ℕ
  pub has_version : Bool

pub data BlockError : Type 0 where
  extra_nonce1_not_hex extra_nonce2_not_hex extra_nonce2_size bad_n_time bad_nonce bad_version :
      BlockError
  bad_merkle_root bad_bits header_size coinbase_too_short tx_not_hex : BlockError
  bad_prev_hash : HexError → BlockError

unfoldable pub parse_hex_uint32_be : BlockError → Str → Result BlockError ℕ
parse_hex_uint32_be e s = do
  fail_if (not (length s == 8)) e
  raw ← or_fail (hex_decode s) e
  ok (be_value raw)

-- The version field, which may be left out.
unfoldable pub parse_version : Str → Result BlockError (ℕ × Bool)
unfolding parse_hex_uint32_be
parse_version [] = ok (0, false)
parse_version (c ∷ s) = do bits ← parse_hex_uint32_be bad_version (c ∷ s); ok (bits, true)

unfoldable pub parse_submit_hex : Str → Str → Str → Str → Str → ℕ → Result BlockError SubmitFields
unfolding parse_hex_uint32_be parse_version
parse_submit_hex extra_nonce1 extra_nonce2 n_time_hex nonce_hex version_hex want_en2_size = do
  en1 ← or_fail (hex_decode extra_nonce1) extra_nonce1_not_hex
  en2 ← or_fail (hex_decode extra_nonce2) extra_nonce2_not_hex
  fail_if (not (length en2 == want_en2_size)) extra_nonce2_size
  n_time ← parse_hex_uint32_be bad_n_time n_time_hex
  nonce ← parse_hex_uint32_be bad_nonce nonce_hex
  (bits, has) ← parse_version version_hex
  ok (record {
    extra_nonce1 = en1;
    extra_nonce2 = en2;
    n_time = n_time;
    nonce = nonce;
    version_bits = bits;
    has_version = has;
  })

-- `a &^ b` on 32-bit words.
abbrev pub and_not : ℕ → ℕ → ℕ
and_not a b = bit_and a (bit_xor b 0xffffffff)

unfoldable pub header_version : ℕ → SubmitFields → ℕ → ℕ
header_version base f mask =
    if f.has_version then bit_or (and_not base mask) (bit_and f.version_bits mask) else base

unfoldable pub header_bits : Job → Result BlockError ℕ
header_bits job = do
  raw ← or_fail (hex_decode job.bits_hex) bad_bits
  fail_if (not (length raw == 4)) bad_bits
  ok (be_value raw)

-- The six fields one after the other.
unfoldable pub layout_header : ℕ → Bytes → Bytes → ℕ → ℕ → ℕ → Bytes
unfolding append_uint32_le
layout_header version prev_le root_le n_time bits nonce =
    append_uint32_le
      (append_uint32_le
        (append_uint32_le ((append_uint32_le [] version ++ prev_le) ++ root_le) n_time) bits)
      nonce

unfoldable pub build_header : Job → Bytes → SubmitFields → ℕ → Result BlockError Bytes
unfolding parse_hex_uint32_be header_version header_bits
build_header job merkle_root_le f version_mask = do
  fail_if (not (length merkle_root_le == 32)) bad_merkle_root
  prev_le ← map_err bad_prev_hash (hash_le_from_display_hex job.prev_hash_display)
  base ← parse_hex_uint32_be bad_version job.version_hex
  bits ← header_bits job
  let header =
      layout_header (header_version base f version_mask) prev_le merkle_root_le f.n_time bits
        f.nonce
  fail_if (not (length header == 80)) header_size
  ok header

unfoldable pub witnessify_coinbase : Bytes → Result BlockError Bytes
witnessify_coinbase legacy = do
  fail_if (ltb (length legacy) (4 + 1 + 36 + 1 + 4 + 1 + 4)) coinbase_too_short
  ok (
      take 4 legacy
      ++ (0x00 ∷ 0x01 ∷ [])
      ++ drop 4 (take (length legacy - 4) legacy)
      ++ (0x01 ∷ 0x20 ∷ replicate 32 0)
      ++ drop (length legacy - 4) legacy)

unfoldable pub append_txs : Bytes → List Str → Result BlockError Bytes
append_txs block [] = ok block
append_txs block (tx ∷ txs) = do
  raw ← or_fail (hex_decode tx) tx_not_hex
  append_txs (block ++ raw) txs

unfoldable pub block_coinbase : Bytes → Job → Result BlockError Bytes
unfolding witnessify_coinbase
block_coinbase legacy job =
    if job.has_witness_commitment then witnessify_coinbase legacy else ok legacy

unfoldable pub assemble_block : Bytes → Bytes → Job → Result BlockError Str
assemble_block header coinbase_legacy job = do
  fail_if (not (length header == 80)) header_size
  coinbase ← block_coinbase coinbase_legacy job
  block ←
      append_txs (append_var_int header (1 + length job.tx_data_hex) ++ coinbase) job.tx_data_hex
  ok (hex_encode block)
