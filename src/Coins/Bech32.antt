-- ===== src/Coins/Bech32.antt =====
-- The bech32 and bech32m part of internal/coins/bitcoinbase/address.go. An int's bits are a number
-- below 2^64; `x << k` is a product and `x >> k` a quotient by 2^k, and `x & (1<<k - 1)` a remainder.
pub mod Rounds
pub mod Regroup
use Prim.Native.Nat.{bit_xor}
use icminers_stratum_v.Prelude.{
  ℕ, zero, suc, ◌+◌, ◌-◌, ◌*◌, ◌/◌, ◌%◌, ◌^◌, List, [], ◌∷◌, ◌++◌, Bool, Option, none, some, ltb,
  leb, ◌==◌, ◌&&◌, ◌||◌, not, if◌then◌else◌, length, take, drop, map, Str, codes, list_beq, Result,
  ok, err, ◌>>=◌, ◌>>◌, fail_if, or_fail,
}
use icminers_stratum_v.Prelude.Text.{last_index}
use icminers_stratum_v.Coins.Bytes.{Bytes}
use icminers_stratum_v.Coins.Base58.{index_of}

pub data Bech32Error : Type 0 where
  separator_position hrp_mismatch invalid_character checksum_mismatch invalid_group : Bech32Error
  invalid_padding empty_program witness_version program_length v0_length wrong_checksum :
      Bech32Error

abbrev pub bech32_charset : Str
bech32_charset = codes "qpzry9x8gf2tvdw0s3jn54khce6mua7l"

abbrev pub bech32m : ℕ
bech32m = 0x2bc830a3

abbrev generators : List ℕ
generators = 0x3b6a57b2 ∷ 0x26508e6d ∷ 0x1ea119fa ∷ 0x3d4233dd ∷ 0x2a1462b3 ∷ []

-- The inner loop: the bits of `top`, lowest first.
unfoldable mix : ℕ → List ℕ → ℕ → ℕ
mix top [] chk = chk
mix top (g ∷ gs) chk = mix (top / 2) gs (if top % 2 == 1 then bit_xor chk g else chk)

unfoldable pub polymod_from : ℕ → List ℕ → ℕ
unfolding mix
polymod_from chk [] = chk
polymod_from chk (v ∷ vs) =
    polymod_from (mix (chk / 2 ^ 25) generators (bit_xor (chk % 2 ^ 25 * 32) v)) vs

unfoldable pub bech32_polymod : List ℕ → ℕ
unfolding polymod_from
bech32_polymod values = polymod_from 1 values

unfoldable pub bech32_hrp_expand : Str → List ℕ
bech32_hrp_expand hrp = map (λ c. c / 32) hrp ++ 0 ∷ map (λ c. c % 32) hrp

-- The values of the characters, if all are of the charset.
unfoldable pub charset_values : Str → Option (List ℕ)
unfolding index_of
charset_values [] = some []
charset_values (c ∷ s) = elim (index_of c bech32_charset) [
  | none ↦ none
  | some d ↦ elim (charset_values s) [ none ↦ none | some ds ↦ some (d ∷ ds) ]
]

abbrev known_checksum : ℕ → Bool
known_checksum konst = konst == 1 || konst == bech32m

unfoldable pub decode_parts : Str → Str → Str → Result Bech32Error (List ℕ × ℕ)
unfolding charset_values bech32_polymod bech32_hrp_expand
decode_parts hrp data_part expected = do
  fail_if (not (list_beq hrp expected)) hrp_mismatch
  values ← or_fail (charset_values data_part) invalid_character
  let konst = bech32_polymod (bech32_hrp_expand hrp ++ values)
  fail_if (not (known_checksum konst)) checksum_mismatch
  ok (take (length values - 6) values, konst)

unfoldable pub bech32_decode : Str → Str → Result Bech32Error (List ℕ × ℕ)
unfolding decode_parts last_index
bech32_decode s expected = elim (last_index b'1' s) [
  | none ↦ err separator_position
  | some pos ↦
      if ltb pos 1 || ltb (length s) (pos + 7)
      then err separator_position
      else decode_parts (take pos s) (drop (pos + 1) s) expected
]

-- The inner loop of `convertBits`: the bytes it appends, and the bits that are left.
unfoldable pub emit_groups : ℕ → ℕ → ℕ → ℕ → Bytes × ℕ
emit_groups zero to acc bits = ([], bits)
emit_groups (suc fuel) to acc bits =
    let rest = emit_groups fuel to acc (bits - to) in
    if leb to bits then ((acc / 2 ^ (bits - to) % 2 ^ to % 256) ∷ rest.0, rest.1) else ([], bits)

-- The end: the bits that are left are padded, or must be padding.
unfoldable pub flush : ℕ → ℕ → Bool → ℕ → ℕ → Result Bech32Error Bytes
flush from to pad acc bits =
    let last = acc * 2 ^ (to - bits) % 2 ^ to in
    if pad
    then ok (if ltb 0 bits then (last % 256) ∷ [] else [])
    else if leb from bits || not (last == 0)
    then err invalid_padding
    else ok []

abbrev pub prepend : Bytes → Result Bech32Error Bytes → Result Bech32Error Bytes
prepend bs (ok out) = ok (bs ++ out)
prepend bs (err e) = err e

-- The loop over the groups; `out` is what each round appends, in order.
unfoldable pub convert_from : ℕ → ℕ → Bool → ℕ → ℕ → List ℕ → Result Bech32Error Bytes
unfolding flush emit_groups
convert_from from to pad acc bits [] = flush from to pad acc bits
convert_from from to pad acc bits (v ∷ vs) =
    let acc' = (acc * 2 ^ from + v) % 2 ^ 64 in
    let (out, left) = emit_groups (bits + from) to acc' (bits + from) in
    let rest = convert_from from to pad acc' left vs in
    if not (v / 2 ^ from == 0) then err invalid_group else prepend out rest

unfoldable pub convert_bits : List ℕ → ℕ → ℕ → Bool → Result Bech32Error Bytes
unfolding convert_from
convert_bits values from to pad = convert_from from to pad 0 0 values

-- The rules for a version and its program, and the script.
unfoldable pub check_program : ℕ → Bytes → ℕ → Result Bech32Error Bytes
check_program version program konst = do
  fail_if (ltb 16 version) witness_version
  fail_if (ltb (length program) 2 || ltb 40 (length program)) program_length
  fail_if (version == 0 && (not (length program == 20) && not (length program == 32))) v0_length
  fail_if (version == 0 && not (konst == 1)) wrong_checksum
  fail_if (not (version == 0) && not (konst == bech32m)) wrong_checksum
  let op_version = if ltb 0 version then 0x50 + version else 0x00
  ok (op_version ∷ length program ∷ program)

unfoldable pub program_script : List ℕ → ℕ → Result Bech32Error Bytes
unfolding convert_bits check_program
program_script [] konst = err empty_program
program_script (version ∷ groups) konst = do
  program ← convert_bits groups 5 8 Bool.false
  check_program version program konst

unfoldable pub segwit_to_script : Str → Str → Result Bech32Error Bytes
unfolding bech32_decode program_script
segwit_to_script address hrp = do
  decoded ← bech32_decode address hrp
  program_script decoded.0 decoded.1
