-- ===== src/Coins/Target.antt =====
-- internal/coins/bitcoinbase/target.go, and ReverseBytes and HashLEFromDisplayHex of merkle.go:
-- compact targets, and the three byte orders of a block hash. A `big.Int` is a number; `none` of
-- `target_to_bytes` is the panic of `FillBytes` on a target of more than 256 bits.
pub mod Laws
use mathlib.Core.List.{reverse}
use mathlib.Core.Option
use icminers_stratum_v.Prelude.{
  ℕ, zero, suc, ◌+◌, ◌-◌, ◌*◌, ◌/◌, ◌%◌, ◌^◌, List, [], ◌∷◌, ◌++◌, Option, none, some, ltb, leb,
  ◌==◌, if◌then◌else◌, length, take, drop, Result, ok, err, ◌>>=◌, ◌>>◌, fail_if, or_fail, Str, not,
}
use icminers_stratum_v.Coins.Bytes.{Bytes, hex_decode, hex_encode, be_value, le_bytes}

pub data HexError : Type 0 where
  not_hex bad_length : HexError

-- `compact & 0x007fffff` is the remainder by 2^23.
unfoldable pub compact_to_target : ℕ → ℕ
compact_to_target compact =
    let exponent = compact / 2 ^ 24 in
    let mantissa = compact % 2 ^ 23 in
    if leb exponent 3
    then mantissa / 2 ^ (8 * (3 - exponent))
    else mantissa * 2 ^ (8 * (exponent - 3))

unfoldable pub bits_to_target : Str → Result HexError ℕ
bits_to_target bits_hex = do
  raw ← or_fail (hex_decode bits_hex) not_hex
  fail_if (not (length raw == 4)) bad_length
  ok (compact_to_target (be_value raw))

unfoldable pub target_to_bytes : ℕ → Option Bytes
target_to_bytes target = if ltb target (2 ^ 256) then some (reverse (le_bytes 32 target)) else none

unfoldable pub uint32_le_hex : ℕ → Str
uint32_le_hex v = hex_encode (le_bytes 4 v)

unfoldable pub reverse_bytes : Bytes → Bytes
reverse_bytes b = reverse b

unfoldable pub hash_le_from_display_hex : Str → Result HexError Bytes
hash_le_from_display_hex display_hex = do
  raw ← or_fail (hex_decode display_hex) not_hex
  fail_if (not (length raw == 32)) bad_length
  ok (reverse_bytes raw)

-- `for i := 0; i < 4*rounds; i += 4 { copy(out[i:i+4], raw[4*rounds-4-i:4*rounds-i]) }`
unfoldable pub swap_words : ℕ → Bytes → Bytes
swap_words zero raw = []
swap_words (suc rounds) raw = take 4 (drop (4 * rounds) raw) ++ swap_words rounds raw

unfoldable pub prev_hash_to_stratum : Str → Result HexError Str
prev_hash_to_stratum display_hex = do
  raw ← or_fail (hex_decode display_hex) not_hex
  fail_if (not (length raw == 32)) bad_length
  ok (hex_encode (swap_words 8 raw))

-- The loop of `StratumPrevHashToLE`: the four bytes of each word turned round.
unfoldable pub swap_bytes : Bytes → Bytes
swap_bytes (a ∷ b ∷ c ∷ d ∷ rest) = d ∷ c ∷ b ∷ a ∷ swap_bytes rest
swap_bytes _ = []

unfoldable pub stratum_prev_hash_to_le : Str → Result HexError Bytes
stratum_prev_hash_to_le stratum_hex = do
  raw ← or_fail (hex_decode stratum_hex) not_hex
  fail_if (not (length raw == 32)) bad_length
  ok (swap_bytes raw)
