-- ===== src/Coins/Address/Tests.antt =====
-- Addresses of the networks, with a hash that is all zeros where one is needed.
use icminers_stratum_v.Prelude.{
  ◌≡◌, ◌≢◌, refl, arith, [], ◌∷◌, true, false, ok, err, ◌>>=◌, codes, replicate, Str, length,
  list_beq,
}
use icminers_stratum_v.Coins.Bytes.{Bytes, IsBytes}
use icminers_stratum_v.Coins.Base58.{checksum_mismatch, leading, emit_digits}
use icminers_stratum_v.Coins.Bech32.{convert_bits, checksum_mismatch}
use icminers_stratum_v.Coins.Address.{
  base58_to_script, address_to_script, length, btc_main_net, trim, ltc_main_net, bech32,
  version_script, p2pkh_script,
}
use icminers_stratum_v.Coins.Address.Laws.{
  IsStandard, has_bech32_prefix, address_to_script-IsStandard,
}
use icminers_stratum_v.Coins.Base58.RoundTrip.{base58_check_encode, base58_encode}
use icminers_stratum_v.Prelude.Text.{has_prefix, trim, to_lower}
use icminers_stratum_v.Coins.Bech32.Regroup.{convert_bits-convert_bits}
use icminers_stratum_v.Coins.Address.Wallets.{
  address_to_script-shadowed, address_to_script-base58_check_encode,
}
use icminers_stratum_v.Coins.Merkle.{double_sha256}

no_hash : Bytes → Bytes
no_hash b = replicate 32 0

no_hash-length : (b : Bytes) → (length (no_hash b) ≡ 32) × IsBytes (no_hash b)
unfolding no_hash
no_hash-length b = (refl, omega arith)

-- The bytes 1 to 20.
abbrev payload : Bytes
payload =
    1 ∷ 2 ∷ 3 ∷ 4 ∷ 5 ∷ 6 ∷ 7 ∷ 8 ∷ 9 ∷ 10 ∷ 11 ∷ 12 ∷ 13 ∷ 14 ∷ 15 ∷ 16 ∷ 17 ∷ 18 ∷ 19 ∷ 20 ∷ []

-- The example of BIP 173.
abbrev segwit_address : Str
segwit_address = codes "bc1qw508d6qejxtdg4y5r3zarvary0c5xw7kv8f3t4"

abbrev segwit_script : Bytes
segwit_script =
    0x00 ∷ 0x14 ∷ 0x75 ∷ 0x1e ∷ 0x76 ∷ 0xe8 ∷ 0x19 ∷ 0x91 ∷ 0x96 ∷ 0xd4 ∷ 0x54 ∷ 0x94 ∷ 0x1c ∷ 0x45
    ∷ 0xd1 ∷ 0xb3 ∷ 0xa3 ∷ 0x23 ∷ 0xf1 ∷ 0x43 ∷ 0x3b ∷ 0xd6 ∷ []

segwit_example : address_to_script no_hash segwit_address btc_main_net ≡ ok segwit_script
unfolding address_to_script list_beq
segwit_example = refl

-- BIP 173 wants this text, in which both cases occur, refused.
mixed_case :
    address_to_script no_hash (codes "bc1qw508d6qejxtdg4y5r3zarvary0c5xw7kv8f3T4") btc_main_net
    ≡ ok segwit_script
unfolding address_to_script list_beq
mixed_case = refl

wrong_letter :
    address_to_script no_hash (codes "bc1qw508d6qejxtdg4y5r3zarvary0c5xw7kv8f3t5") btc_main_net
    ≡ err (bech32 checksum_mismatch)
unfolding address_to_script list_beq
wrong_letter = refl

address_to_script-IsStandard_example : IsStandard segwit_script
address_to_script-IsStandard_example =
    address_to_script-IsStandard no_hash segwit_address btc_main_net segwit_example

plain : has_bech32_prefix (base58_check_encode no_hash 0 payload) btc_main_net ≡ false
unfolding has_prefix to_lower trim base58_check_encode base58_encode leading emit_digits
    double_sha256 no_hash
plain = refl

address_to_script-base58_check_encode_example :
    address_to_script no_hash (base58_check_encode no_hash 0 payload) btc_main_net
    ≡ version_script btc_main_net 0 payload
address_to_script-base58_check_encode_example =
    address_to_script-base58_check_encode no_hash 0 payload btc_main_net no_hash-length
      (omega arith) refl plain

convert_bits-convert_bits_example :
    (convert_bits payload 8 5 true >>= λ gs. convert_bits gs 5 8 false) ≡ ok payload
convert_bits-convert_bits_example = convert_bits-convert_bits payload (omega arith)

-- A Litecoin address that a wallet may write.
abbrev ltc_payload : Bytes
ltc_payload =
    0x57 ∷ 0x62 ∷ 0x75 ∷ 0xad ∷ 0xa4 ∷ 0xad ∷ 0xc0 ∷ 0xaa ∷ 0x75 ∷ 0xcf ∷ 0xad ∷ 0x59 ∷ 0xe1 ∷ 0x6a
    ∷ 0x99 ∷ 0xe6 ∷ 0x39 ∷ 0xd0 ∷ 0xa5 ∷ 0x4c ∷ []

abbrev ltc_address : Str
ltc_address = base58_check_encode no_hash 0x30 ltc_payload

starts_ltc1 : has_prefix ltc_address (codes "LTC1") ≡ true
unfolding has_prefix base58_check_encode base58_encode leading emit_digits double_sha256 no_hash
starts_ltc1 = refl

as_base58 : base58_to_script no_hash (trim ltc_address) ltc_main_net ≡ ok (p2pkh_script ltc_payload)
unfolding base58_to_script trim base58_check_encode base58_encode double_sha256 no_hash list_beq
as_base58 = refl

ltc_prefixed : has_bech32_prefix ltc_address ltc_main_net ≡ true
unfolding has_prefix to_lower trim base58_check_encode base58_encode leading emit_digits
    double_sha256 no_hash
ltc_prefixed = refl

address_to_script-shadowed_example :
    address_to_script no_hash ltc_address ltc_main_net ≢ ok (p2pkh_script ltc_payload)
address_to_script-shadowed_example =
    address_to_script-shadowed no_hash ltc_address ltc_main_net (p2pkh_script ltc_payload)
      ltc_prefixed as_base58
