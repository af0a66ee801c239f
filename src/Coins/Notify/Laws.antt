-- ===== src/Coins/Notify/Laws.antt =====
-- What a derived job commits to.
use icminers_stratum_v.Prelude.{
  ◌≡◌, ◌≢◌, List, [], ◌∷◌, Bool, arith, Str, ok, err, some, Result-cases, inl, inr,
}
use icminers_stratum_v.Coins.Bytes.{Bytes}
use icminers_stratum_v.Coins.Merkle.{merkle_root, fold_branch}
use icminers_stratum_v.Coins.Merkle.Laws.{merkle_branch-fold_branch-merkle_root}
use icminers_stratum_v.Coins.Template.{Template, tx_ids}
use icminers_stratum_v.Coins.Coinbase.{CoinbaseSpec}
use icminers_stratum_v.Coins.Notify.{Job, out_of_fuel, tx_hashes_le, new_job}

-- A job that `NewJob` builds carries, for the miners, a branch that folds every coinbase hash to
-- the merkle root over that hash and the hashes of the template's transactions in order.
pub new_job-merkle_root :
    (sha256 : Bytes → Bytes) (job_id : Str) (tpl : Template) (spec : CoinbaseSpec) (clean : Bool)
    (job : Job) (coinbase : Bytes)
    → new_job sha256 job_id tpl spec clean ≡ ok job
    → (hashes : List Bytes) × (tx_hashes_le (tx_ids tpl.transactions) ≡ ok hashes)
      × (merkle_root sha256 (coinbase ∷ hashes)
          ≡ some (some (fold_branch sha256 coinbase job.merkle_branch_le)))
unfolding new_job
new_job-merkle_root sha256 job_id tpl spec clean job coinbase h =
    elim (Result-cases (tx_hashes_le (tx_ids tpl.transactions))) [
      | inl (hashes, e) ↦
          let (steps, b, r) = merkle_branch-fold_branch-merkle_root sha256 coinbase hashes in
          let same : job.merkle_branch_le ≡ steps = ground (arith, e, b) in (hashes, e, rw same r)
      | inr (x, e) ↦ absurd (ground (arith, e))
    ]

tx_hashes_le-ne-out_of_fuel : (ids : List Str) → tx_hashes_le ids ≢ err out_of_fuel
unfolding tx_hashes_le
tx_hashes_le-ne-out_of_fuel [] h = cc
tx_hashes_le-ne-out_of_fuel (id ∷ ids) h = ground (arith, tx_hashes_le-ne-out_of_fuel ids)

-- The rounds given to the merkle loops are enough for every template.
pub new_job-ne-out_of_fuel :
    (sha256 : Bytes → Bytes) (job_id : Str) (tpl : Template) (spec : CoinbaseSpec) (clean : Bool)
    → new_job sha256 job_id tpl spec clean ≢ err out_of_fuel
unfolding new_job
new_job-ne-out_of_fuel sha256 job_id tpl spec clean h =
    elim (Result-cases (tx_hashes_le (tx_ids tpl.transactions))) [
      | inl (hashes, e) ↦
          let (steps, b, r) = merkle_branch-fold_branch-merkle_root sha256 [] hashes in
          ground (arith, e, b)
      | inr (x, e) ↦ ground (arith, e, tx_hashes_le-ne-out_of_fuel (tx_ids tpl.transactions))
    ]
