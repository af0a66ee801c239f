-- ===== src/Adapter/Setup/Tests.antt =====
-- Addresses as operators write them, and the adapters made with them.
use icminers_stratum_v.Prelude.{
  Str, replicate, codes, some, none, ◌≡◌, refl, true, err, ok, list_beq,
}
use icminers_stratum_v.Coins.Bytes.{Bytes}
use icminers_stratum_v.Coins.Address.{btc_main_net, address_to_script, base58}
use icminers_stratum_v.Coins.Base58.{invalid_character}
use icminers_stratum_v.Adapter.Setup.{
  rxd_new, btc_new, ltc_new, submit_block, normalize_address, Options, unknown_network,
  bad_pool_address, rejected,
}
use icminers_stratum_v.Adapter.Setup.Laws.{normalize_address-twice}

no_hash : Bytes → Bytes
no_hash b = replicate 32 0

-- The example of BIP 173, in capitals and with white space around it.
abbrev typed : Str
typed = codes " BC1QW508D6QEJXTDG4Y5R3ZARVARY0C5XW7KV8F3T4\n"

abbrev address : Str
address = codes "bc1qw508d6qejxtdg4y5r3zarvary0c5xw7kv8f3t4"

normalizes : normalize_address no_hash btc_main_net typed ≡ ok address
unfolding normalize_address list_beq
normalizes = refl

normalize_address-twice_example :
    (normalize_address no_hash btc_main_net address ≡ ok address)
    × ((script : Bytes) × (address_to_script no_hash typed btc_main_net ≡ ok script)
        × (address_to_script no_hash address btc_main_net ≡ ok script))
normalize_address-twice_example = normalize_address-twice btc_main_net no_hash typed normalizes

abbrev options : Str → Options
options network = record {
  has_rpc = true;
  network = network;
  pool_address = typed;
  coinbase_tag = codes "/POOL/";
  extra_nonce1_size = 0;
  extra_nonce2_size = 8;
}

unknown : btc_new no_hash (options (codes "moonnet")) ≡ err unknown_network
unfolding btc_new list_beq
unknown = refl

-- Only Bitcoin and Litecoin know the test network's second name.
no_signet : rxd_new no_hash no_hash (options (codes "signet")) ≡ err unknown_network
unfolding rxd_new list_beq
no_signet = refl

other_coin :
    ltc_new no_hash (λ b. none) (options (codes "mainnet"))
    ≡ err (bad_pool_address (base58 invalid_character))
unfolding ltc_new list_beq
other_coin = refl

refused : submit_block (some (some (codes "bad-txns"))) ≡ err (rejected (codes "bad-txns"))
refused = refl
