-- ===== src/Coins/Merkle.antt =====
-- internal/coins/bitcoinbase/merkle.go: the stratum merkle branch and the full merkle root. The
-- hash SHA-256 is a parameter. A level is a list of hashes; in `MerkleBranch` the coinbase slot
-- holds the empty byte string, as the source's `nil`.
pub mod Laws
use icminers_stratum_v.Prelude.{
  ℕ, zero, suc, ◌-◌, ◌%◌, List, [], ◌∷◌, ◌++◌, Option, none, some, ltb, ◌==◌, if◌then◌else◌, length,
  get_elem?, drop,
}
use mathlib.Core.Option
use icminers_stratum_v.Coins.Bytes.{Bytes}

-- `level[i]`; every use is in range.
abbrev pub at : List Bytes → ℕ → Bytes
at level i = elim (get_elem? level i) [ none ↦ [] | some h ↦ h ]

-- `if len(level)%2 == 1 { level = append(level, level[len(level)-1]) }`
unfoldable pub pad : List Bytes → List Bytes
pad level = if length level % 2 == 1 then level ++ at level (length level - 1) ∷ [] else level

module _ (sha256 : Bytes → Bytes) where
  unfoldable pub double_sha256 : Bytes → Bytes
  double_sha256 b = sha256 (sha256 b)

  -- The inner loop, over a padded level: one hash for each pair.
  unfoldable pub pair_up : List Bytes → List Bytes
  pair_up (a ∷ b ∷ rest) = double_sha256 (a ++ b) ∷ pair_up rest
  pair_up _ = []

  unfoldable pub branch_loop : ℕ → List Bytes → Option (List Bytes)
  branch_loop zero level = none
  branch_loop (suc fuel) level =
      let rest =
        Option.map (◌∷◌ (at level 1)) (branch_loop fuel ([] ∷ pair_up (drop 2 (pad level)))) in
      if ltb 1 (length level) then rest else some []

  unfoldable pub merkle_branch : List Bytes → Option (List Bytes)
  merkle_branch tx_hashes = branch_loop (suc (length tx_hashes)) ([] ∷ tx_hashes)

  unfoldable pub fold_branch : Bytes → List Bytes → Bytes
  fold_branch h [] = h
  fold_branch h (s ∷ steps) = fold_branch (double_sha256 (h ++ s)) steps

  unfoldable pub root_loop : ℕ → List Bytes → Option Bytes
  root_loop zero level = none
  root_loop (suc fuel) level =
      let rest = root_loop fuel (pair_up (pad level)) in
      if ltb 1 (length level) then rest else some (at level 0)

  -- The inner `none` is the source's `nil`, for no hashes at all; the outer one, too little fuel.
  unfoldable pub merkle_root : List Bytes → Option (Option Bytes)
  merkle_root [] = some none
  merkle_root (h ∷ hs) = Option.map some (root_loop (suc (length hs)) (h ∷ hs))
