-- ===== src/Coins/Tests.antt =====
-- Runs of the coin code on concrete data.
use icminers_stratum_v.Prelude.{
  ◌-◌, drop, false, take, ◌≡◌, refl, List, [], ◌∷◌, ◌++◌, arith, ◌≤◌, length, replicate, ok, some,
  ℕ, codes,
}
use icminers_stratum_v.Coins.Notify.{hex8, new_job, tx_hashes_le}
use icminers_stratum_v.Coins.Samples.{
  fields, header, checksum, hash_text, zeros_text, template, spec, parts, coinbase, base_job,
}
use icminers_stratum_v.Coins.Bytes.{
  hex_decode-IsBytes, IsBytes, le_value, le_bytes, Bytes, hex_decode, hex_encode,
}
use icminers_stratum_v.Coins.Merkle.{
  double_sha256, pair_up, pad, branch_loop, merkle_branch, merkle_root, fold_branch,
}
use icminers_stratum_v.Coins.Merkle.Laws.{merkle_branch-fold_branch-merkle_root}
use icminers_stratum_v.Coins.Target.{
  reverse_bytes, swap_words, uint32_le_hex, prev_hash_to_stratum, hash_le_from_display_hex,
}
use icminers_stratum_v.Coins.VarInt.{
  append_uint64_le, append_uint32_le, append_var_int, read_var_int,
}
use icminers_stratum_v.Coins.Height.{encode_height_bip34, decode_height_bip34}
use icminers_stratum_v.Coins.Coinbase.{
  tx_output, outputs, build_coinbase, build_coinb1, build_coinb2, script_sig_len, assemble,
}
use icminers_stratum_v.Coins.Coinbase.Laws.{script_sig, script_sig_size, build_coinbase-assemble}
use icminers_stratum_v.Coins.Template.{tx_ids, check_template, any_unnamed, parse_template}
use icminers_stratum_v.Coins.Block.{
  bad_version, build_header, header_version, header_bits, parse_hex_uint32_be, layout_header,
  witnessify_coinbase, assemble_block, block_coinbase, append_txs,
}
use icminers_stratum_v.Coins.Block.Laws.{build_header-slices, slice}
use icminers_stratum_v.Coins.Block.Assembly.{assemble_block-read_var_int, raw_txs}

merkle_branch-fold_branch-merkle_root_example :
    (steps : List Bytes) × (merkle_branch checksum (zeros_text 3 ∷ hash_text ∷ []) ≡ some steps)
    × (merkle_root checksum ((1 ∷ []) ∷ zeros_text 3 ∷ hash_text ∷ [])
        ≡ some (some (fold_branch checksum (1 ∷ []) steps)))
merkle_branch-fold_branch-merkle_root_example =
    merkle_branch-fold_branch-merkle_root checksum (1 ∷ []) (zeros_text 3 ∷ hash_text ∷ [])

prev_hash_words :
    prev_hash_to_stratum hash_text
    ≡ ok (
        zeros_text 32
        ++ hex_encode (
            0xcc ∷ 0xdd ∷ 0xee ∷ 0xff ∷ 0x88 ∷ 0x99 ∷ 0xaa ∷ 0xbb ∷ 0x44 ∷ 0x55 ∷ 0x66 ∷ 0x77 ∷ 0x00
            ∷ 0x11 ∷ 0x22 ∷ 0x33 ∷ []))
unfolding prev_hash_to_stratum hex_decode hex_encode swap_words
prev_hash_words = refl

height_push : encode_height_bip34 300000 ≡ 3 ∷ 0xe0 ∷ 0x93 ∷ 0x04 ∷ []
unfolding encode_height_bip34
height_push = refl

built : build_coinbase spec ≡ ok parts
unfolding build_coinbase script_sig_len encode_height_bip34
built = refl

assembled : assemble parts (1 ∷ 2 ∷ 3 ∷ 4 ∷ []) (5 ∷ 6 ∷ 7 ∷ 8 ∷ []) ≡ ok coinbase
unfolding assemble
assembled = refl

build_coinbase-assemble_example :
    (script_sig_size coinbase ≤ 100)
    × (script_sig coinbase
        ≡ encode_height_bip34 300000
          ++ (spec.tag ++ ((1 ∷ 2 ∷ 3 ∷ 4 ∷ []) ++ (5 ∷ 6 ∷ 7 ∷ 8 ∷ []))))
    × (decode_height_bip34 (script_sig coinbase) ≡ ok (300000, length (encode_height_bip34 300000)))
build_coinbase-assemble_example =
    build_coinbase-assemble spec parts (1 ∷ 2 ∷ 3 ∷ 4 ∷ []) (5 ∷ 6 ∷ 7 ∷ 8 ∷ []) coinbase
      (omega arith) built assembled

template_checked : check_template template ≡ ok template
unfolding check_template any_unnamed hex_decode
template_checked = refl

parsed : parse_template {R = ℕ} (λ raw. some template) 0 ≡ ok template
unfolding parse_template check_template any_unnamed hex_decode
parsed = refl

named : tx_ids template.transactions ≡ hash_text ∷ zeros_text 64 ∷ hash_text ∷ []
unfolding tx_ids
named = refl

target_hex : uint32_le_hex 0x1d00ffff ≡ codes "ffff001d"
unfolding uint32_le_hex hex_encode
target_hex = refl

job_built : new_job checksum [] template spec false ≡ ok base_job
unfolding new_job build_coinbase script_sig_len encode_height_bip34 tx_hashes_le tx_ids
    merkle_branch branch_loop pad pair_up double_sha256 hash_le_from_display_hex reverse_bytes
    prev_hash_to_stratum swap_words hex_decode hex_encode
job_built = refl

header_built : build_header base_job (replicate 32 1) fields 0x1fffe000 ≡ ok header
unfolding build_header header_version hash_le_from_display_hex reverse_bytes hex_decode hex_encode
    append_uint32_le layout_header hex8
header_built = refl

build_header-slices_example :
    (base : ℕ) × (bits : ℕ) × (parse_hex_uint32_be bad_version base_job.version_hex ≡ ok base)
    × (header_bits base_job ≡ ok bits)
    × (length header ≡ 80)
    × (slice 0 4 header ≡ le_bytes 4 (header_version base fields 0x1fffe000))
    × (hash_le_from_display_hex base_job.prev_hash_display ≡ ok (slice 4 32 header))
    × (slice 36 32 header ≡ replicate 32 1)
    × (le_value (slice 68 4 header) ≡ 1700000200)
    × (slice 72 4 header ≡ le_bytes 4 bits)
    × (le_value (slice 76 4 header) ≡ 77)
build_header-slices_example =
    build_header-slices base_job (replicate 32 1) fields 0x1fffe000 header (omega arith)
      (omega arith) header_built

abbrev witness_form : Bytes
witness_form =
    take 4 coinbase
    ++ (0x00 ∷ 0x01 ∷ [])
    ++ drop 4 (take (length coinbase - 4) coinbase)
    ++ (0x01 ∷ 0x20 ∷ replicate 32 0)
    ++ drop (length coinbase - 4) coinbase

witnessified : witnessify_coinbase coinbase ≡ ok witness_form
unfolding witnessify_coinbase build_coinb1 build_coinb2 encode_height_bip34 append_uint32_le
    append_var_int append_uint64_le outputs tx_output
witnessified = refl

abbrev block_bytes : Bytes
block_bytes =
    header ++ 4 ∷ coinbase ++ (0xa1 ∷ 0xb2 ∷ 0xc3 ∷ 0xa1 ∷ 0xb2 ∷ 0xc3 ∷ 0xa1 ∷ 0xb2 ∷ 0xc3 ∷ [])

block_assembled : assemble_block header coinbase base_job ≡ ok (hex_encode block_bytes)
unfolding assemble_block append_var_int append_txs block_coinbase hex_decode layout_header
    build_coinb1 build_coinb2 encode_height_bip34 outputs tx_output append_uint64_le
block_assembled = refl

header-IsBytes : IsBytes header
unfolding hex_decode hex_encode layout_header
header-IsBytes = hex_decode-IsBytes (hex_encode header) refl

coinbase-IsBytes : IsBytes coinbase
unfolding hex_decode hex_encode build_coinb1 build_coinb2 encode_height_bip34 outputs tx_output
    append_uint64_le append_var_int
coinbase-IsBytes = hex_decode-IsBytes (hex_encode coinbase) refl

assemble_block-read_var_int_example :
    (block full raw : Bytes) × (hex_decode (hex_encode block_bytes) ≡ some block)
    × (block_coinbase coinbase base_job ≡ ok full)
    × (raw_txs base_job.tx_data_hex ≡ some raw)
    × (length header ≡ 80)
    × (take 80 block ≡ header)
    × (read_var_int (drop 80 block) ≡ some (4, full ++ raw))
assemble_block-read_var_int_example =
    assemble_block-read_var_int header coinbase base_job (hex_encode block_bytes) header-IsBytes
      coinbase-IsBytes (omega arith) block_assembled
