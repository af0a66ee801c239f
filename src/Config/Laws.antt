-- ===== src/Config/Laws.antt =====
-- What the validation of a configuration establishes.
use icminers_stratum_v.Prelude.{
  ℕ, ◌≤◌, ◌<◌, List, [], ◌∷◌, true, false, not, leb, ltb, ◌||◌, Str, list_beq, list_beq_iff, Result,
  ok, err, ◌>>◌, >>=-eq-ok, fail_if-eq-ok, ◌≡◌, ◌≢◌, ◌⊎◌, inl, inr, All, refl, arith, Bool-cases,
  some, subst, sym,
}
use icminers_stratum_v.Prelude.Floats.{Floats}
use icminers_stratum_v.Config.{PortConfig, PoolConfig, pool_by_id, Config}
use icminers_stratum_v.Config.Validate.{
  check_difficulty, check_pools, check_ports, seen, invalid_vardiff, seen_port, invalid_port,
  duplicate_port, unknown_pool_id, validate, check_coins,
}

-- Both steps of a successful pair have succeeded.
>>-eq-ok {ℓ} :
    {E : Type 0} {B : Type ℓ} (m : Result E (Unit {0})) (k : Result E B) {b : B}
    → (m >> k) ≡ ok b
    → (m ≡ ok tt) × (k ≡ ok b)
>>-eq-ok (ok tt) k h = (refl, h)
>>-eq-ok (err e) k h = absurd (cc h)

same_ok : {E A : Type 0} {a b : A} → ◌≡◌ {A = Result E A} (ok a) (ok b) → a ≡ b
same_ok h = cc

module _ (fl : Floats) where
  open fl use {F, of_ℕ, lt, le}

  -- A port as the server needs it: a number of 16 bits, a pool that is configured, and with variable
  -- difficulty a positive minimum that is not above the maximum.
  unfoldable pub IsPort : List (PoolConfig F) → PortConfig F → Type 0
  IsPort pools p =
      (0 < p.port)
      × (p.port ≤ 65535)
      × ((pool : PoolConfig F) × (pool_by_id p.pool_id pools ≡ some pool))
      × (p.var_diff ≡ true → (le p.min_diff (of_ℕ 0) ≡ false) × (lt p.max_diff p.min_diff ≡ false))

  -- No two ports have the same number.
  unfoldable pub AreApart : List (PortConfig F) → Type 0
  AreApart [] = Unit
  AreApart (p ∷ ps) = All (λ q. q.port ≢ p.port) ps × AreApart ps

  found_pool :
      (x : Str) (p : PoolConfig F) (ps : List (PoolConfig F)) (acc : List Str)
      → (seen x (p.id ∷ acc) ≡ true) ⊎ ((pool : PoolConfig F) × (pool_by_id x ps ≡ some pool))
      → (seen x acc ≡ true) ⊎ ((pool : PoolConfig F) × (pool_by_id x (p ∷ ps) ≡ some pool))
  unfolding pool_by_id
  found_pool x p ps acc h = elim (Bool-cases (list_beq p.id x)) [
    | inl this ↦ inr (p, rw this refl)
    | inr other ↦ elim h [
      | inl there ↦ inl (ground (arith, there, other, list_beq_iff x p.id, list_beq_iff p.id x))
      | inr (pool, e) ↦ inr (pool, rw other e)
    ]
  ]

  -- An id that the check of the pools collects is the id of a pool.
  check_pools-pool_by_id :
      (acc ids : List Str) (ps : List (PoolConfig F)) (x : Str)
      → check_pools fl acc ps ≡ ok ids
      → seen x ids ≡ true
      → (seen x acc ≡ true) ⊎ ((pool : PoolConfig F) × (pool_by_id x ps ≡ some pool))
  unfolding check_pools
  check_pools-pool_by_id acc ids [] x h there =
      inl (subst (λ is. seen x is ≡ true) (sym (same_ok h)) there)
  check_pools-pool_by_id acc ids (p ∷ ps) x h there =
      found_pool x p ps acc (check_pools-pool_by_id (p.id ∷ acc) ids ps x (>>-eq-ok _ _ h).1 there)

  check_difficulty_lem :
      (p : PortConfig F)
      → check_difficulty fl p ≡ ok tt
      → p.var_diff ≡ true
      → (le p.min_diff (of_ℕ 0) ≡ false) × (lt p.max_diff p.min_diff ≡ false)
  unfolding check_difficulty
  check_difficulty_lem p h on = ground (arith, fail_if-eq-ok _ invalid_vardiff (rw on at h))

  -- What the loop over the ports has tested of one.
  abbrev Tested : List Str → List ℕ → PortConfig F → Type 0
  Tested ids acc p =
      (0 < p.port)
      × (p.port ≤ 65535)
      × (seen p.pool_id ids ≡ true)
      × (check_difficulty fl p ≡ ok tt)
      × (seen_port p.port acc ≡ false)

  Tested-cons :
      (ids : List Str) (n : ℕ) (acc : List ℕ) (ps : List (PortConfig F))
      → All (Tested ids (n ∷ acc)) ps
      → All (Tested ids acc) ps × All (λ q. q.port ≢ n) ps
  Tested-cons ids n acc [] h = (tt, tt)
  Tested-cons ids n acc (p ∷ ps) h =
      let rest = Tested-cons ids n acc ps h.1 in
      let t = h.0 in
      (((t.0, t.1, t.2, t.3, ground (arith, t.4)), rest.0), ((λ e. ground (arith, t.4, e)), rest.1))

  check_ports_lem :
      (ids : List Str) (acc : List ℕ) (ps : List (PortConfig F))
      → check_ports fl ids acc ps ≡ ok tt
      → All (Tested ids acc) ps × AreApart ps
  unfolding check_ports AreApart
  check_ports_lem ids acc [] h = (tt, tt)
  check_ports_lem ids acc (p ∷ ps) h =
      let last = >>-eq-ok _ _ h in
      let difficulty = >>-eq-ok _ _ last.0 in
      let known = >>-eq-ok _ _ difficulty.0 in
      let named = >>-eq-ok _ _ known.0 in
      let fresh = >>-eq-ok _ _ named.0 in
      let rest = check_ports_lem ids (p.port ∷ acc) ps last.1 in
      let in_range = fail_if-eq-ok (leb p.port 0 || ltb 65535 p.port) invalid_port fresh.0 in
      let is_new = fail_if-eq-ok (seen_port p.port acc) duplicate_port fresh.1 in
      let is_known = fail_if-eq-ok (not (seen p.pool_id ids)) unknown_pool_id known.1 in
      let others = Tested-cons ids p.port acc ps rest.0 in
      (
        (
          (
            ground (arith, in_range),
            ground (arith, in_range),
            ground (arith, is_known),
            difficulty.1,
            is_new,
          ),
          others.0,
        ),
        (others.1, rest.1),
      )

  known_pool :
      (ids : List Str) (pools : List (PoolConfig F)) (x : Str)
      → check_pools fl [] pools ≡ ok ids
      → seen x ids ≡ true
      → (pool : PoolConfig F) × (pool_by_id x pools ≡ some pool)
  known_pool ids pools x h there = elim (check_pools-pool_by_id [] ids pools x h there) [
    | inl none_seen ↦ absurd (cc none_seen)
    | inr found ↦ found
  ]

  ports_lem :
      (ids : List Str) (pools : List (PoolConfig F)) (ps : List (PortConfig F))
      → check_pools fl [] pools ≡ ok ids
      → All (Tested ids []) ps
      → All (IsPort pools) ps
  unfolding IsPort
  ports_lem ids pools [] h t = tt
  ports_lem ids pools (p ∷ ps) h t =
      let one = t.0 in
      let pool = known_pool ids pools p.pool_id h one.2 in
      ((one.0, one.1, pool, check_difficulty_lem p one.3), ports_lem ids pools ps h t.1)

  -- In a configuration that passes validation every stratum port has a number from 1 to 65535, maps
  -- to a configured pool, and with variable difficulty has a positive minimum that is not above the
  -- maximum; and no two ports have the same number.
  pub validate-IsPort :
      (c : Config F)
      → validate fl c ≡ ok tt
      → All (IsPort c.pools) c.stratum.ports × AreApart c.stratum.ports
  unfolding validate
  validate-IsPort c h =
      let checked = (>>-eq-ok _ _ h).1 in
      let pools = >>=-eq-ok (check_pools fl [] c.pools) _ checked in
      let coins = >>=-eq-ok (check_coins [] c.coins) _ pools.2 in
      let ports = (>>-eq-ok _ _ (>>-eq-ok _ _ coins.2).0).0 in
      let tested = check_ports_lem pools.0 [] c.stratum.ports ports in
      (ports_lem pools.0 c.pools c.stratum.ports pools.1 tested.0, tested.1)
