-- ===== src/Coins/Base58.antt =====
-- The base58check part of internal/coins/bitcoinbase/address.go. A big.Int is a number; its `Bytes`
-- are the digits to the base 256, highest first, with no leading zero.
pub mod RoundTrip
use icminers_stratum_v.Prelude.{
  ℕ, zero, suc, ◌+◌, ◌-◌, ◌*◌, ◌/◌, ◌%◌, List, [], ◌∷◌, ◌++◌, Option, none, some, ltb, ◌==◌, not,
  if◌then◌else◌, length, take, drop, replicate, Str, codes, list_beq, Result, ok, err, ◌>>=◌, ◌>>◌,
  fail_if, or_fail,
}
use icminers_stratum_v.Coins.Bytes.{Bytes}
use icminers_stratum_v.Coins.Merkle.{double_sha256}

pub data Base58Error : Type 0 where
  invalid_character too_short checksum_mismatch : Base58Error

abbrev pub b58_alphabet : Str
b58_alphabet = codes "123456789ABCDEFGHJKLMNPQRSTUVWXYZabcdefghijkmnopqrstuvwxyz"

-- `b58Index[c]`, and the index of another alphabet.
unfoldable pub index_of : ℕ → Str → Option ℕ
index_of c [] = none
index_of c (a ∷ s) =
    if a == c then some 0 else elim (index_of c s) [ none ↦ none | some i ↦ some (suc i) ]

-- One round for each digit; the number itself is fuel enough.
unfoldable pub emit_digits : ℕ → ℕ → ℕ → List ℕ → List ℕ
emit_digits base zero n out = out
emit_digits base (suc fuel) n out =
    let rest = emit_digits base fuel (n / base) ((n % base) ∷ out) in if ltb 0 n then rest else out

unfoldable pub number_bytes : ℕ → Bytes
unfolding emit_digits
number_bytes n = emit_digits 256 n n []

-- The loop over the characters.
unfoldable pub number_from : ℕ → Str → Option ℕ
unfolding index_of
number_from num [] = some num
number_from num (c ∷ s) = elim (index_of c b58_alphabet) [
  | none ↦ none
  | some d ↦ number_from (num * 58 + d) s
]

-- Each leading '1' is a leading zero byte.
unfoldable pub leading : ℕ → List ℕ → ℕ
leading c [] = 0
leading c (b ∷ s) = if b == c then suc (leading c s) else 0

unfoldable pub full_bytes : Str → Option Bytes
unfolding number_from number_bytes leading
full_bytes s = elim (number_from 0 s) [
  | none ↦ none
  | some num ↦ some (replicate (leading b'1' s) 0 ++ number_bytes num)
]

-- `body[0], body[1:]` of a body that is not empty.
abbrev pub split_version : Bytes → Result Base58Error (ℕ × Bytes)
split_version [] = err too_short
split_version (version ∷ payload) = ok (version, payload)

module _ (sha256 : Bytes → Bytes) where
  unfoldable pub base58_check_decode : Str → Result Base58Error (ℕ × Bytes)
  unfolding full_bytes
  base58_check_decode s = do
    full ← or_fail (full_bytes s) invalid_character
    fail_if (ltb (length full) 5) too_short
    let body = take (length full - 4) full
    fail_if (not (list_beq (drop (length full - 4) full) (take 4 (double_sha256 sha256 body))))
        checksum_mismatch
    split_version body
