-- ===== src/Coins/Address.antt =====
-- internal/coins/bitcoinbase/address.go: payout addresses, and the scripts that they stand for. The
-- hash SHA-256 is a parameter; texts are in ASCII. Its two codings are Base58 and Bech32.
pub mod Laws
pub mod Wallets
mod Tests
use icminers_stratum_v.Prelude.{
  ℕ, [], ◌∷◌, ◌++◌, ◌&&◌, not, ◌==◌, if◌then◌else◌, length, Str, codes, Result, ok, err, ◌>>=◌,
  ◌>>◌, fail_if, map_err,
}
use icminers_stratum_v.Prelude.Text.{trim, to_lower, has_prefix}
use icminers_stratum_v.Coins.Bytes.{Bytes}
use icminers_stratum_v.Coins.Template.{is_empty}
use icminers_stratum_v.Coins.Base58.{Base58Error, base58_check_decode}
use icminers_stratum_v.Coins.Bech32.{Bech32Error, segwit_to_script}

pub record AddressParams : Type 0 where
  pub p2pkh_version : ℕ
  pub p2sh_version : ℕ
  pub bech32_hrp : Str

abbrev params : ℕ → ℕ → Str → AddressParams
params p2pkh p2sh hrp = record { p2pkh_version = p2pkh; p2sh_version = p2sh; bech32_hrp = hrp }

abbrev pub btc_main_net : AddressParams
btc_main_net = params 0x00 0x05 (codes "bc")

abbrev pub btc_test_net : AddressParams
btc_test_net = params 0x6f 0xc4 (codes "tb")

abbrev pub btc_reg_test : AddressParams
btc_reg_test = params 0x6f 0xc4 (codes "bcrt")

abbrev pub ltc_main_net : AddressParams
ltc_main_net = params 0x30 0x32 (codes "ltc")

abbrev pub ltc_test_net : AddressParams
ltc_test_net = params 0x6f 0x3a (codes "tltc")

abbrev pub ltc_reg_test : AddressParams
ltc_reg_test = params 0x6f 0x3a (codes "rltc")

abbrev pub rxd_main_net : AddressParams
rxd_main_net = params 0x00 0x05 []

abbrev pub rxd_test_net : AddressParams
rxd_test_net = params 0x6f 0xc4 []

abbrev pub rxd_reg_test : AddressParams
rxd_reg_test = params 0x6f 0xc4 []

abbrev pub scash_main_net : AddressParams
scash_main_net = params 0x00 0x05 (codes "scash")

abbrev pub scash_test_net : AddressParams
scash_test_net = params 0x6f 0xc4 (codes "tscash")

abbrev pub scash_reg_test : AddressParams
scash_reg_test = params 0x6f 0xc4 (codes "rscash")

pub data AddressError : Type 0 where
  empty_address payload_length unknown_version : AddressError
  base58 : Base58Error → AddressError
  bech32 : Bech32Error → AddressError

abbrev pub p2pkh_script : Bytes → Bytes
p2pkh_script payload = 0x76 ∷ 0xa9 ∷ 0x14 ∷ (payload ++ 0x88 ∷ 0xac ∷ [])

abbrev pub p2sh_script : Bytes → Bytes
p2sh_script payload = 0xa9 ∷ 0x14 ∷ (payload ++ 0x87 ∷ [])

abbrev version_script : AddressParams → ℕ → Bytes → Result AddressError Bytes
version_script ps version payload =
    if version == ps.p2pkh_version
    then ok (p2pkh_script payload)
    else if version == ps.p2sh_version
    then ok (p2sh_script payload)
    else err unknown_version

module _ (sha256 : Bytes → Bytes) where
  unfoldable pub base58_to_script : Str → AddressParams → Result AddressError Bytes
  unfolding base58_check_decode
  base58_to_script address ps = do
    decoded ← map_err base58 (base58_check_decode sha256 address)
    fail_if (not (length decoded.1 == 20)) payload_length
    version_script ps decoded.0 decoded.1

  unfoldable pub address_to_script : Str → AddressParams → Result AddressError Bytes
  unfolding trim to_lower has_prefix base58_to_script segwit_to_script
  address_to_script text ps =
      let address = trim text in
      if is_empty address
      then err empty_address
      else if not (is_empty ps.bech32_hrp)
          && has_prefix (to_lower address) (ps.bech32_hrp ++ b'1' ∷ [])
      then map_err bech32 (segwit_to_script (to_lower address) ps.bech32_hrp)
      else base58_to_script address ps
