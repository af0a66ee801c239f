-- ===== src/Rewards/Split/Laws.antt =====
-- What `distribute` pays out in all, and that every credit pays something.
use icminers_stratum_v.Prelude.{
  ℕ, zero, suc, ◌+◌, ◌-◌, ◌%◌, ◌<◌, max, List, [], ◌∷◌, map, true, false, ◌≡◌, refl, arith, ltb,
  leb, length, filter, sort_by, sum, sum-sort_by, Bool-cases, inl, inr, All, length-sort_by,
}
use icminers_stratum_v.Prelude.Floats.{Floats}
use icminers_stratum_v.Rewards.Split.{
  Credit, MinerWork, amounts, bump, hand_out, drop_zeros, is_positive, add_up, total_work,
  pays_before, floor_share, floors, distribute,
}

sum-bump :
    (i : ℕ) (cs : List Credit) → i < length cs → sum (amounts (bump i cs)) ≡ sum (amounts cs) + 1
unfolding bump
sum-bump i [] h = absurd (omega (arith, h))
sum-bump zero (c ∷ cs) h = omega arith
sum-bump (suc i) (c ∷ cs) h = omega (arith, sum-bump i cs (omega (arith, h)))

length-bump : (i : ℕ) (cs : List Credit) → length (bump i cs) ≡ length cs
unfolding bump
length-bump i [] = refl
length-bump zero (c ∷ cs) = refl
length-bump (suc i) (c ∷ cs) = omega (arith, length-bump i cs)

mod_lt : (i n : ℕ) → 0 < n → i % n < n
mod_lt i n h = ground arith

-- Each round of the loop adds one base unit.
sum-hand_out :
    (rest i : ℕ) (cs : List Credit)
    → i < length cs
    → sum (amounts (hand_out rest i cs)) ≡ sum (amounts cs) + rest
unfolding hand_out
sum-hand_out zero i cs h = omega arith
sum-hand_out (suc rest) i cs h =
    let next = (i + 1) % length cs in
    omega (
      arith,
      sum-bump i cs h,
      sum-hand_out rest next (bump i cs)
          (omega (arith, length-bump i cs, mod_lt (i + 1) (length cs) (omega (arith, h)))),
    )

sum-drop_zeros : (cs : List Credit) → sum (amounts (drop_zeros cs)) ≡ sum (amounts cs)
unfolding drop_zeros
sum-drop_zeros [] = refl
sum-drop_zeros (c ∷ cs) = ground (arith, sum-drop_zeros cs)

All-drop_zeros : (cs : List Credit) → All (λ c. 0 < c.amount_sats) (drop_zeros cs)
unfolding drop_zeros
All-drop_zeros [] = tt
All-drop_zeros (c ∷ cs) = elim (Bool-cases (ltb 0 c.amount_sats)) [
  | inl e ↦ rw e (ground arith, All-drop_zeros cs)
  | inr e ↦ rw e (All-drop_zeros cs)
]

module _ (fl : Floats) where
  open fl use {F, of_ℕ, le}

  -- Without positive work the sum stays where it starts.
  add_up_idle :
      (t : F) (ws : List (MinerWork F))
      → length (filter (is_positive fl) ws) ≡ 0
      → add_up fl t ws ≡ t
  unfolding add_up
  add_up_idle t [] h = refl
  add_up_idle t (w ∷ ws) h = elim (Bool-cases (is_positive fl w)) [
    | inl e ↦ absurd (omega (arith, rw e at h))
    | inr e ↦ rw e (add_up_idle t ws (rw e at h))
  ]

  -- The amounts before the remainder is handed out.
  sum-floors :
      (amount : ℕ) (total : F) (ws : List (MinerWork F))
      → sum (amounts (floors fl amount total ws)) ≡ sum (map (floor_share fl amount total) ws)
  unfolding floors
  sum-floors amount total [] = refl
  sum-floors amount total (w ∷ ws) = omega (arith, sum-floors amount total ws)

  length-floors :
      (amount : ℕ) (total : F) (ws : List (MinerWork F))
      → length (floors fl amount total ws) ≡ length ws
  unfolding floors
  length-floors amount total [] = refl
  length-floors amount total (w ∷ ws) = omega (arith, length-floors amount total ws)

  abbrev pub floor_sum : ℕ → List (MinerWork F) → ℕ
  floor_sum amount ws =
      sum (map (floor_share fl amount (total_work fl ws)) (filter (is_positive fl) ws))

  some_positive :
      (ws : List (MinerWork F))
      → le (of_ℕ 0) (of_ℕ 0) ≡ true
      → le (total_work fl ws) (of_ℕ 0) ≡ false
      → 0 < length (filter (is_positive fl) ws)
  unfolding total_work
  some_positive ws zero_law h = elim (Bool-cases (leb (length (filter (is_positive fl) ws)) 0)) [
    | inr e ↦ ground (arith, e)
    | inl e ↦
        let idle = add_up_idle (of_ℕ 0) ws (ground (arith, e)) in absurd (cc (idle, zero_law, h))
  ]

  abbrev ordered : List (MinerWork F) → List (MinerWork F)
  ordered ws = sort_by (pays_before fl) (filter (is_positive fl) ws)

  distribute_open :
      (amount : ℕ) (ws : List (MinerWork F))
      → le (of_ℕ 0) (of_ℕ 0) ≡ true
      → 0 < amount
      → le (total_work fl ws) (of_ℕ 0) ≡ false
      → let cs = floors fl amount (total_work fl ws) (ordered ws) in
        distribute fl amount ws ≡ drop_zeros (hand_out (amount - sum (amounts cs)) 0 cs)
  unfolding distribute total_work
  distribute_open amount [] zero_law h k = absurd (cc (zero_law, k))
  distribute_open amount (w ∷ ws) zero_law h k = ground (arith, h, k)

  -- For a positive amount and positive work in all, the credits sum to exactly the amount where the
  -- rounded shares do not exceed it, and to the sum of the rounded shares where they do, as float
  -- arithmetic may let them; each credit is positive. The float comparison is taken to find 0 ≤ 0.
  pub sum-distribute :
      (amount : ℕ) (ws : List (MinerWork F))
      → le (of_ℕ 0) (of_ℕ 0) ≡ true
      → 0 < amount
      → le (total_work fl ws) (of_ℕ 0) ≡ false
      → (sum (amounts (distribute fl amount ws)) ≡ max amount (floor_sum amount ws))
        × All (λ c. 0 < c.amount_sats) (distribute fl amount ws)
  sum-distribute amount ws zero_law h k =
      let cs = floors fl amount (total_work fl ws) (ordered ws) in
      let paid = hand_out (amount - sum (amounts cs)) 0 cs in
      rw (distribute_open amount ws zero_law h k) (
        omega (
          arith,
          sum-drop_zeros paid,
          sum-hand_out (amount - sum (amounts cs)) 0 cs (
              omega (
                arith,
                some_positive ws zero_law k,
                length-floors amount (total_work fl ws) (ordered ws),
                length-sort_by (pays_before fl) (filter (is_positive fl) ws),
              )),
          sum-floors amount (total_work fl ws) (ordered ws),
          sum-sort_by (floor_share fl amount (total_work fl ws)) (pays_before fl)
              (filter (is_positive fl) ws),
        ),
        All-drop_zeros paid,
      )
