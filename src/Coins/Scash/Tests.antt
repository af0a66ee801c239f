-- ===== src/Coins/Scash/Tests.antt =====
-- Seeds of Scash headers.
use icminers_stratum_v.Prelude.{◌≡◌, refl, codes, none, some, err, replicate, []}
use icminers_stratum_v.Coins.Scash.{seed_text, pow_hash, no_backend, header_size, hash_size}

-- The first second of epoch 2801.
seed : seed_text 1694044800 0 ≡ codes "Scash/RandomX/Epoch/2801"
unfolding seed_text
seed = refl

without : pow_hash (λ b. b) (λ b. b) none 0 (replicate 80 0) ≡ err no_backend
unfolding pow_hash
without = refl

short_header : pow_hash (λ b. b) (λ b. b) none 0 (replicate 79 0) ≡ err header_size
unfolding pow_hash
short_header = refl

-- A back end whose answer has another length.
short_hash : pow_hash (λ b. b) (λ b. b) (some (λ s i. some [])) 0 (replicate 80 0) ≡ err hash_size
unfolding pow_hash
short_hash = refl
