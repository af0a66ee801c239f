-- ===== src/Coins/Merkle/Laws.antt =====
-- The branch that a miner folds its coinbase hash through leads to the block's merkle root.
use icminers_stratum_v.Prelude.{
  ℕ, zero, suc, ◌-◌, ◌%◌, ◌≤◌, ◌<◌, ◌≡◌, refl, List, [], ◌∷◌, ◌++◌, some, arith, length, Bool-cases,
  ◌==◌, inl, inr, ltb, lt→ltb, true,
}
use icminers_stratum_v.Coins.Bytes.{Bytes}
use icminers_stratum_v.Coins.Merkle.{
  pad, pair_up, branch_loop, merkle_branch, fold_branch, root_loop, merkle_root, double_sha256,
}

-- A level is padded behind its first two hashes.
pad_step : (x y : Bytes) (r : List Bytes) → pad (x ∷ y ∷ r) ≡ x ∷ y ∷ pad r
unfolding pad
pad_step x y [] = refl
pad_step x y (z ∷ r) =
    let parity : suc (suc (suc (length r))) % 2 ≡ suc (length r) % 2 = omega arith in
    let far : suc (suc (suc (length r))) - 1 ≡ suc (suc (length r)) = omega arith in
    let near : suc (length r) - 1 ≡ length r = omega arith in
    rw (parity, far, near)
      (elim (Bool-cases (suc (length r) % 2 == 1)) [ inl odd ↦ rw odd | inr even ↦ rw even ])

length-pair_up : (H : Bytes → Bytes) (r : List Bytes) → length (pair_up H (pad r)) ≤ length r
unfolding pair_up
length-pair_up H [] = unfold pad in omega arith
length-pair_up H (x ∷ []) = unfold pad in omega arith
length-pair_up H (x ∷ y ∷ r) = rw (pad_step x y r) (omega (arith, length-pair_up H r))

module _ (H : Bytes → Bytes) where
  -- Both loops take the same levels but for the first hash, which only `fold_branch` sees.
  loops_agree :
      (fuel : ℕ) (cb x : Bytes) (txs : List Bytes)
      → length txs < fuel
      → (steps : List Bytes) × (branch_loop H fuel ([] ∷ txs) ≡ some steps)
        × (root_loop H fuel (cb ∷ txs) ≡ some (fold_branch H cb steps))
  unfolding branch_loop root_loop fold_branch pair_up
  loops_agree zero cb x txs h = elim h [ ]
  loops_agree (suc fuel) cb x [] h = ([], refl, refl)
  loops_agree (suc fuel) cb x (y ∷ r) h =
      let (steps, b, f) =
        loops_agree fuel (double_sha256 H (cb ++ y)) x (pair_up H (pad r))
          (omega (arith, length-pair_up H r)) in
      let more : ltb 1 (suc (suc (length r))) ≡ true =
        lt→ltb 1 (suc (suc (length r))) (omega arith) in
      (y ∷ steps, rw (pad_step [] y r, b, more), rw (pad_step cb y r, f, more))

-- For every coinbase hash and all transaction hashes, both loops of the source end, and folding
-- the coinbase hash through the stratum branch of the transactions gives the merkle root of the
-- coinbase hash followed by the transactions.
pub merkle_branch-fold_branch-merkle_root :
    (sha256 : Bytes → Bytes) (coinbase : Bytes) (txs : List Bytes)
    → (steps : List Bytes) × (merkle_branch sha256 txs ≡ some steps)
      × (merkle_root sha256 (coinbase ∷ txs) ≡ some (some (fold_branch sha256 coinbase steps)))
unfolding merkle_branch merkle_root
merkle_branch-fold_branch-merkle_root sha256 coinbase txs =
    let (steps, b, f) = loops_agree sha256 (suc (length txs)) coinbase [] txs (omega arith) in
    (steps, b, rw f)
