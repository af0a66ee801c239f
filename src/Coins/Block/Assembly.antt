-- ===== src/Coins/Block/Assembly.antt =====
-- The block that is sent to the daemon, read back.
use icminers_stratum_v.Coins.Block.Laws.{witnessify_coinbase-IsBytes}
use icminers_stratum_v.Prelude.{
  ◌+◌, ◌^◌, ◌<◌, ◌≡◌, ◌∙◌, refl, List, [], ◌∷◌, ◌++◌, Option, none, some, arith, length, take, drop,
  take-append_eq, drop-append, append_assoc, append-nil, All-append, Str, ok, Option-cases,
  Result-cases, inl, inr, Bool-cases,
}
use icminers_stratum_v.Coins.Bytes.{
  Bytes, IsBytes, hex_decode, hex_encode, hex_decode-hex_encode, hex_decode-IsBytes,
}
use icminers_stratum_v.Coins.VarInt.{
  append_var_int, read_var_int, read_var_int-append_var_int, append_var_int-append,
  append_var_int-IsBytes,
}
use icminers_stratum_v.Coins.Notify.{Job}
use icminers_stratum_v.Coins.Block.{append_txs, assemble_block, block_coinbase, witnessify_coinbase}

-- The template transactions' bytes, one after the other.
abbrev join_raw : Option Bytes → Option Bytes → Option Bytes
join_raw (some a) (some b) = some (a ++ b)
join_raw _ _ = none

pub raw_txs : List Str → Option Bytes
raw_txs [] = some []
raw_txs (tx ∷ txs) = join_raw (hex_decode tx) (raw_txs txs)

append_txs-raw_txs :
    (block : Bytes) (txs : List Str) {b : Bytes}
    → IsBytes block
    → append_txs block txs ≡ ok b
    → (raw : Bytes) × (raw_txs txs ≡ some raw) × (b ≡ block ++ raw) × IsBytes b
unfolding append_txs raw_txs
append_txs-raw_txs block [] {b} h e =
    let same : b ≡ block = ground arith in ([], refl, rw append-nil same, rw same h)
append_txs-raw_txs block (tx ∷ txs) h e = elim (Option-cases (hex_decode tx)) [
  | inl bad ↦ absurd (ground (arith, bad))
  | inr (raw, d) ↦
      let grown = All-append _ block raw h (hex_decode-IsBytes tx d) in
      let (more, r, whole, bytes) =
        append_txs-raw_txs (block ++ raw) txs grown (ground (arith, d)) in
      (raw ++ more, rw (d, r), whole ∙ append_assoc block raw more, bytes)
]

block_coinbase-IsBytes :
    (legacy : Bytes) (job : Job) {coinbase : Bytes}
    → IsBytes legacy
    → block_coinbase legacy job ≡ ok coinbase
    → IsBytes coinbase
unfolding block_coinbase
block_coinbase-IsBytes legacy job {coinbase} h e = elim (Bool-cases job.has_witness_commitment) [
  | inr plain ↦ let same : coinbase ≡ legacy = ground (arith, plain) in rw same h
  | inl wide ↦
      let witnessed : witnessify_coinbase legacy ≡ ok coinbase = ground (arith, wide) in
      witnessify_coinbase-IsBytes legacy h witnessed
]

-- What `AssembleBlock` returns is hex of: the header in its first 80 bytes, then a transaction
-- count that the protocol reads as one more than the template's transactions, then the coinbase
-- (in witness form where the job has a witness commitment), then the template's transactions.
pub assemble_block-read_var_int :
    (header legacy : Bytes) (job : Job) (block_hex : Str)
    → IsBytes header
    → IsBytes legacy
    → 1 + length job.tx_data_hex < 2 ^ 64
    → assemble_block header legacy job ≡ ok block_hex
    → (block coinbase raw : Bytes) × (hex_decode block_hex ≡ some block)
      × (block_coinbase legacy job ≡ ok coinbase)
      × (raw_txs job.tx_data_hex ≡ some raw)
      × (length header ≡ 80)
      × (take 80 block ≡ header)
      × (read_var_int (drop 80 block) ≡ some (1 + length job.tx_data_hex, coinbase ++ raw))
unfolding assemble_block
assemble_block-read_var_int header legacy job block_hex h l few e =
    elim (Result-cases (block_coinbase legacy job)) [
      | inr (x, bad) ↦ absurd (ground (arith, bad))
      | inl (coinbase, c) ↦
          let n = 1 + length job.tx_data_hex in
          let start = append_var_int header n ++ coinbase in
          let start_bytes : IsBytes start = rw (append_var_int-append header n) (
            All-append _ _ coinbase
              (All-append _ header (append_var_int [] n) h (append_var_int-IsBytes n))
              (block_coinbase-IsBytes legacy job l c)) in
          elim (Result-cases (append_txs start job.tx_data_hex)) [
            | inr (x, bad) ↦ absurd (ground (arith, c, bad))
            | inl (block, b) ↦
                let (raw, r, whole, bytes) =
                  append_txs-raw_txs start job.tx_data_hex start_bytes b in
                let size : length header ≡ 80 = ground (arith, c, b) in
                let hex : block_hex ≡ hex_encode block = ground (arith, c, b) in
                let flat : block ≡ header ++ (append_var_int [] n ++ (coinbase ++ raw)) =
                  whole ∙ rw (append_var_int-append header n) (simp append_assoc) in
                (
                  block,
                  coinbase,
                  raw,
                  rw hex (hex_decode-hex_encode block bytes),
                  c,
                  r,
                  size,
                  rw flat (take-append_eq header _ 80 size),
                  rw (flat, ← size, drop-append header (append_var_int [] n ++ (coinbase ++ raw)))
                      (read_var_int-append_var_int n (coinbase ++ raw) few),
                )
          ]
    ]
