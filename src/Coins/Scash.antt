-- ===== src/Coins/Scash.antt =====
-- internal/coins/scash: epoch.go, the commitment of randomx.go and the proof-of-work closure of
-- adapter.go. RandomX, blake2b and SHA-256 are parameters. The times are those that headers hold,
-- unsigned, which do not reach the branch of `EpochSeedHash` for negative ones.
mod Laws
mod Tests
use icminers_stratum_v.Prelude.{
  ℕ, zero, suc, ◌+◌, ◌/◌, List, ◌++◌, not, ◌==◌, if◌then◌else◌, length, map, take, drop, Option,
  none, some, Str, codes, Result, ok, err, ◌>>=◌, ◌>>◌, fail_if, or_fail, ◌*◌, ◌∷◌, [],
}
use icminers_stratum_v.Coins.Bytes.{Bytes, le_value}
use icminers_stratum_v.Coins.Base58.{emit_digits}

pub data HashError : Type 0 where
  header_size hash_size randomx_failed no_backend : HashError

abbrev pub randomx_hash_size : ℕ
randomx_hash_size = 32

abbrev pub epoch_seed_prefix : Str
epoch_seed_prefix = codes "Scash/RandomX/Epoch/"

-- One week, in seconds.
abbrev pub default_epoch_duration : ℕ
default_epoch_duration = 7 * 24 * 60 * 60

-- `%d` of a number.
unfoldable pub decimal : ℕ → Str
unfolding emit_digits
decimal zero = b'0' ∷ []
decimal (suc n) = map (λ d. b'0' + d) (emit_digits 10 (suc n) (suc n) [])

abbrev pub duration_or_default : ℕ → ℕ
duration_or_default duration = if duration == 0 then default_epoch_duration else duration

unfoldable pub epoch_number : ℕ → ℕ → ℕ
epoch_number unix_time duration = unix_time / duration_or_default duration

-- The text whose hash is the seed.
unfoldable pub seed_text : ℕ → ℕ → Str
unfolding decimal
seed_text unix_time duration =
    epoch_seed_prefix ++ decimal (unix_time / duration_or_default duration)

abbrev pub epoch_seed_hash : (Bytes → Bytes) → ℕ → ℕ → Bytes
epoch_seed_hash sha256 unix_time duration = sha256 (seed_text unix_time duration)

abbrev pub commitment : (Bytes → Bytes) → Bytes → Bytes → Result HashError Bytes
commitment blake2b input rx_hash =
    if length rx_hash == randomx_hash_size then ok (blake2b (input ++ rx_hash)) else err hash_size

-- The back end's answer for a seed and an input; without a back end there is an error.
abbrev pub randomx_hash :
    Option (Bytes → Bytes → Option Bytes) → Bytes → Bytes → Result HashError Bytes
randomx_hash none seed input = err no_backend
randomx_hash (some rx) seed input = or_fail (rx seed input) randomx_failed

module _ (sha256 blake2b : Bytes → Bytes) where
  unfoldable pub pow_hash :
      Option (Bytes → Bytes → Option Bytes) → ℕ → Bytes → Result HashError Bytes
  unfolding seed_text
  pow_hash rx duration header = do
    fail_if (not (length header == 80)) header_size
    rx_hash ←
        randomx_hash rx (epoch_seed_hash sha256 (le_value (take 4 (drop 68 header))) duration)
          header
    fail_if (not (length rx_hash == randomx_hash_size)) hash_size
    commitment blake2b header rx_hash
