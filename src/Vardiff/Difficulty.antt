-- ===== src/Vardiff/Difficulty.antt =====
-- internal/stratum/vardiff/difficulty.go. A `big.Int` is a number; the quotients of `big.Float` are
-- the interface's `quo_int` and `quo`.
use icminers_stratum_v.Prelude.{ℕ, ◌*◌, ◌^◌, Bool, leb, ◌==◌, if◌then◌else◌}
use icminers_stratum_v.Prelude.Floats.{Floats}
use icminers_stratum_v.Coins.Bytes.{Bytes, be_value}

-- 0x00000000FFFF0000…00, 64 hex digits.
abbrev pub diff1_target : ℕ
diff1_target = 0xffff * 2 ^ 208

unfoldable pub hash_to_big : Bytes → ℕ
hash_to_big hash = be_value hash

unfoldable pub meets_target : ℕ → ℕ → Bool
meets_target hash target = leb hash target

module _ (fl : Floats) where
  open fl use {F, of_ℕ, le, quo_int, quo}

  unfoldable pub difficulty_to_target : F → ℕ
  difficulty_to_target difficulty =
      if le difficulty (of_ℕ 0) then diff1_target else quo_int diff1_target difficulty

  unfoldable pub target_to_difficulty : ℕ → F
  target_to_difficulty target = if target == 0 then of_ℕ 0 else quo diff1_target target

  unfoldable pub share_difficulty : ℕ → F
  unfolding target_to_difficulty
  share_difficulty hash = target_to_difficulty hash
