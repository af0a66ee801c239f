-- ===== src/Adapter/Setup.antt =====
-- How an adapter comes to be, and what it does with addresses: `New` of
-- internal/coins/bitcoinlike/adapter.go and of the coins' own packages internal/coins/btc, ltc,
-- rxd and scash, with `NormalizeAddress`, `HashHeader`, `SubmitBlock` and `Health`. The daemon's client is only
-- there or not, and its answers are arguments.
mod Laws
mod Tests
use icminers_stratum_v.Prelude.{
  ℕ, ◌++◌, [], ◌∷◌, Bool, true, false, ◌&&◌, ◌||◌, not, ◌==◌, if◌then◌else◌, length, Option, none,
  some, Str, codes, list_beq, Result, ok, err, ◌>>=◌, ◌>>◌, fail_if, or_fail, map_err,
}
use icminers_stratum_v.Prelude.Text.{trim, to_lower, has_prefix}
use icminers_stratum_v.Coins.Bytes.{Bytes}
use icminers_stratum_v.Coins.Merkle.{double_sha256}
use icminers_stratum_v.Coins.Template.{is_empty}
use icminers_stratum_v.Coins.Address.{
  AddressParams, AddressError, address_to_script, btc_main_net, btc_test_net, btc_reg_test,
  ltc_main_net, ltc_test_net, ltc_reg_test, rxd_main_net, rxd_test_net, rxd_reg_test,
  scash_main_net, scash_test_net, scash_reg_test,
}
use icminers_stratum_v.Coins.Scash.{pow_hash}
use icminers_stratum_v.Adapter.{Coin}

-- A nil hash is `none`; a hash that fails gives `none`.
pub record Spec : Type 0 where
  pub coin_name : Str
  pub coin_symbol : Str
  pub algo_name : Str
  pub params : AddressParams
  pub pow : Option (Bytes → Option Bytes)
  pub identity_hash : Option (Bytes → Option Bytes)
  pub version_rolling_mask : ℕ

pub record Options : Type 0 where
  pub has_rpc : Bool
  pub network : Str
  pub pool_address : Str
  pub coinbase_tag : Str
  pub extra_nonce1_size : ℕ
  pub extra_nonce2_size : ℕ

pub data SetupError : Type 0 where
  nil_rpc unknown_network : SetupError
  bad_pool_address : AddressError → SetupError

-- The answer to submitblock: an error of the call, or null or a text.
pub data SubmitError : Type 0 where
  call_failed : SubmitError
  rejected : Str → SubmitError

pub data HealthError : Type 0 where
  unreachable initial_block_download : HealthError

abbrev pub version_rolling_mask : ℕ
version_rolling_mask = 0x1fffe000

-- The three names of a network, with a second name for the test network where the coin has one.
unfoldable pub choose_network :
    AddressParams → AddressParams → AddressParams → Bool → Str → Result SetupError AddressParams
unfolding to_lower
choose_network main test reg signet text =
    let name = to_lower text in
    if is_empty name || list_beq name (codes "mainnet")
    then ok main
    else if list_beq name (codes "testnet") || (signet && list_beq name (codes "signet"))
    then ok test
    else if list_beq name (codes "regtest")
    then ok reg
    else err unknown_network

abbrev size_or : ℕ → ℕ → ℕ
size_or default n = if n == 0 then default else n

-- `BlockchainInfo.InitialBlockDownload`, or none if the call failed.
abbrev pub health : Option Bool → Result HealthError (Unit {0})
health none = err unreachable
health (some downloading) = fail_if downloading initial_block_download

abbrev pub submit_block : Option (Option Str) → Result SubmitError (Unit {0})
submit_block none = err call_failed
submit_block (some none) = ok tt
submit_block (some (some text)) = fail_if (not (is_empty text)) (rejected text)

abbrev value_of {ℓ κ} : {E : Type ℓ} {A : Type κ} → Result E A → Option A
value_of (ok a) = some a
value_of (err e) = none

module _ (sha256 : Bytes → Bytes) where
  abbrev pub hash_or_default : Option (Bytes → Option Bytes) → Bytes → Option Bytes
  hash_or_default none header = some (double_sha256 sha256 header)
  hash_or_default (some hash) header = hash header

  unfoldable pub new : Spec → Options → Result SetupError Coin
  unfolding address_to_script
  new spec opts = do
    fail_if (not opts.has_rpc) nil_rpc
    script ← map_err bad_pool_address (address_to_script sha256 opts.pool_address spec.params)
    ok (record {
      sha256 = sha256;
      pow = hash_or_default spec.pow;
      identity_hash = hash_or_default spec.identity_hash;
      version_rolling_mask = spec.version_rolling_mask;
      payout_script = script;
      tag = opts.coinbase_tag;
      en1_size = size_or 4 opts.extra_nonce1_size;
      en2_size = size_or 4 opts.extra_nonce2_size;
    })

  unfoldable pub btc_new : Options → Result SetupError Coin
  unfolding choose_network new
  btc_new opts = do
    fail_if (not opts.has_rpc) nil_rpc
    params ← choose_network btc_main_net btc_test_net btc_reg_test true opts.network
    new
        (record {
          coin_name = codes "Bitcoin";
          coin_symbol = codes "BTC";
          algo_name = codes "sha256d";
          params = params;
          pow = none;
          identity_hash = none;
          version_rolling_mask = version_rolling_mask;
        })
        opts

  unfoldable pub ltc_new : (Bytes → Option Bytes) → Options → Result SetupError Coin
  unfolding choose_network new
  ltc_new scrypt_hash opts = do
    fail_if (not opts.has_rpc) nil_rpc
    params ← choose_network ltc_main_net ltc_test_net ltc_reg_test true opts.network
    new
        (record {
          coin_name = codes "Litecoin";
          coin_symbol = codes "LTC";
          algo_name = codes "scrypt";
          params = params;
          pow = some scrypt_hash;
          identity_hash = none;
          version_rolling_mask = 0;
        })
        opts

  unfoldable pub rxd_new : (Bytes → Bytes) → Options → Result SetupError Coin
  unfolding choose_network new
  rxd_new sum512_256 opts = do
    fail_if (not opts.has_rpc) nil_rpc
    params ← choose_network rxd_main_net rxd_test_net rxd_reg_test false opts.network
    new
        (record {
          coin_name = codes "Radiant";
          coin_symbol = codes "RXD";
          algo_name = codes "sha512_256d";
          params = params;
          pow = some (λ header. some (sum512_256 (sum512_256 header)));
          identity_hash = some (λ header. some (sum512_256 (sum512_256 header)));
          version_rolling_mask = 0;
        })
        opts

  unfoldable pub scash_new :
      (Bytes → Bytes) → Option (Bytes → Bytes → Option Bytes) → ℕ → Options → Result SetupError Coin
  unfolding choose_network new pow_hash
  scash_new blake2b randomx epoch_duration opts = do
    fail_if (not opts.has_rpc) nil_rpc
    params ← choose_network scash_main_net scash_test_net scash_reg_test false opts.network
    new
        (record {
          coin_name = codes "Scash";
          coin_symbol = codes "SCASH";
          algo_name = codes "randomx";
          params = params;
          pow = some (λ header. value_of (pow_hash sha256 blake2b randomx epoch_duration header));
          identity_hash = none;
          version_rolling_mask = 0;
        })
        opts

  -- `a.spec.Params` is an argument.
  unfoldable pub normalize_address : AddressParams → Str → Result AddressError Str
  unfolding trim to_lower has_prefix address_to_script
  normalize_address ps text =
      let trimmed = trim text in
      let address =
        if not (is_empty ps.bech32_hrp)
          && has_prefix (to_lower trimmed) (ps.bech32_hrp ++ b'1' ∷ [])
        then to_lower trimmed
        else trimmed in
      (do _ ← address_to_script sha256 address ps; ok address)

-- An error of the hash and a header of another length are both `none`.
abbrev pub hash_header : Coin → Bytes → Option Bytes
hash_header coin header = if length header == 80 then coin.pow header else none
