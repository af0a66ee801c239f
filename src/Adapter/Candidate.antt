-- ===== src/Adapter/Candidate.antt =====
-- The block of a candidate, read back.
use icminers_stratum_v.Prelude.{
  ℕ, ◌+◌, ◌≤◌, ◌<◌, ◌^◌, ◌≡◌, ap, sym, ◌∙◌, arith, ◌++◌, true, length, take, drop, some, ok, leb,
}
use icminers_stratum_v.Prelude.Floats.{Floats}
use icminers_stratum_v.Coins.Bytes.{Bytes, IsBytes, be_value, hex_decode, hex_decode-hex_encode}
use icminers_stratum_v.Coins.Block.{block_coinbase}
use icminers_stratum_v.Coins.Block.Laws.{slice, build_header-layout}
use icminers_stratum_v.Adapter.{
  Coin, MiningJob, ShareSubmit, ShareResult, reverse_bytes, fold_branch, double_sha256, leb,
}
use icminers_stratum_v.Adapter.Laws.{Accepted, judged_flags}
use icminers_stratum_v.Coins.Block.Assembly.{assemble_block-read_var_int}
use icminers_stratum_v.Coins.Target.{reverse_bytes}
use icminers_stratum_v.Coins.Merkle.{fold_branch, double_sha256}
use icminers_stratum_v.Coins.VarInt.{read_var_int}

at_most : {a b : ℕ} → leb a b ≡ true → a ≤ b
at_most h = ground (arith, h)

module _ (fl : Floats) (coin : Coin) (job : MiningJob) (submit : ShareSubmit fl.F) where
  -- If a share is accepted as a block candidate, and header, coinbase and identity hash consist of
  -- bytes: the block that it carries is hex of bytes of which the first 80 hash to a digest that, read
  -- as a big-endian number, is at most the network's target; the reported block hash is hex of the
  -- reversed identity hash of those 80 bytes; they carry the merkle root of the coinbase that the share
  -- names; and behind them stand a count, which the protocol reads as one more than the template's
  -- transactions, and that coinbase, in witness form where the job has a witness commitment.
  pub validate_share-read_block :
      (r : ShareResult fl.F) (a : Accepted fl coin job submit r)
      → r.block_candidate ≡ true
      → IsBytes a.header
      → IsBytes a.coinbase_tx
      → 1 + length a.base.tx_data_hex < 2 ^ 64
      → IsBytes (reverse_bytes a.id_le)
      → (block coinbase raw pow id : Bytes) × (hex_decode r.block_hex ≡ some block)
        × (coin.pow (take 80 block) ≡ some pow)
        × (be_value pow ≤ be_value job.network_target)
        × (coin.identity_hash (take 80 block) ≡ some id)
        × (hex_decode r.block_hash ≡ some (reverse_bytes id))
        × (block_coinbase a.coinbase_tx a.base ≡ ok coinbase)
        × (slice 36 32 (take 80 block)
            ≡ fold_branch coin.sha256
                (double_sha256 coin.sha256 a.coinbase_tx)
                a.base.merkle_branch_le)
        × (read_var_int (drop 80 block) ≡ some (1 + length a.base.tx_data_hex, coinbase ++ raw))
  validate_share-read_block r a candidate header_bytes tx_bytes few id_bytes =
      let flags =
        judged_flags fl coin job submit a.base a.coinbase_tx a.header a.pow_le a.id_le a.judged in
      let (assembled, named) = flags.2 candidate in
      let (wide, prev, root) =
        build_header-layout a.base _ a.fields coin.version_rolling_mask a.has_header in
      let (block, coinbase, raw, read, made, txs, size, front, count) =
        assemble_block-read_var_int a.header a.coinbase_tx a.base r.block_hex header_bytes tx_bytes
          few assembled in
      (
        block,
        coinbase,
        raw,
        a.pow_le,
        a.id_le,
        read,
        ap coin.pow front ∙ a.hashed,
        at_most (sym flags.1 ∙ candidate),
        ap coin.identity_hash front ∙ a.identified,
        ap hex_decode named ∙ hex_decode-hex_encode (reverse_bytes a.id_le) id_bytes,
        made,
        ap (slice 36 32) front ∙ root,
        count,
      )
