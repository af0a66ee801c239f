-- ===== src/Storage/ShareWriter/Rows.antt =====
-- Which shares a list or the table has, by key.
use icminers_stratum_v.Prelude.{
  ℕ, List, [], ◌∷◌, ◌++◌, true, ◌||◌, ◌≡◌, refl, arith, some, none, take, drop, take-append-drop,
  ap, sym, ◌∙◌, Bool-cases, inl, inr, Option,
}
use icminers_stratum_v.Storage.ShareWriter.{
  has_key, insert_new, copy_rows, ShareKey, ShareRecord, clashes, Call, share_key_eq, copy_shares,
  copy_shares_idempotent, key_of, outcome,
}
use icminers_stratum_v.Payouts.{Call, answered, failed_before, failed_after}

same_some : {A : Type 0} {a b : A} → some a ≡ some b → a ≡ b
same_some h = cc

module _ {F : Type 0} where
  pub has_key-append :
      (k : ShareKey) (xs ys : List (ShareRecord F))
      → has_key k (xs ++ ys) ≡ (has_key k xs || has_key k ys)
  unfolding has_key
  has_key-append k [] ys = refl
  has_key-append k (x ∷ xs) ys = ground (arith, has_key-append k xs ys)

  pub has_key-take-drop :
      (k : ShareKey) (n : ℕ) (xs : List (ShareRecord F))
      → has_key k xs ≡ (has_key k (take n xs) || has_key k (drop n xs))
  has_key-take-drop k n xs =
      ap (has_key k) (sym (take-append-drop n xs)) ∙ has_key-append k (take n xs) (drop n xs)

  -- Skipped rows are there already.
  pub has_key-insert_new :
      (k : ShareKey) (rs rows : List (ShareRecord F))
      → has_key k (insert_new rs rows) ≡ (has_key k rows || has_key k rs)
  unfolding insert_new has_key clashes
  has_key-insert_new k [] rows = ground arith
  has_key-insert_new k (r ∷ rs) rows = ground (
    arith,
    has_key-insert_new k rs rows,
    has_key-insert_new k rs (r ∷ rows),
    share_key_eq.beq_iff (key_of r) k,
  )

  pub has_key-copy_rows :
      (k : ShareKey) (rs rows : List (ShareRecord F)) {new : List (ShareRecord F)}
      → copy_rows rs rows ≡ some new
      → has_key k new ≡ (has_key k rows || has_key k rs)
  unfolding copy_rows has_key clashes
  has_key-copy_rows k [] rows h = ground (arith, ap (has_key k) (same_some h))
  has_key-copy_rows k (r ∷ rs) rows h = elim (Bool-cases (clashes r rows)) [
    | inl clash ↦ absurd (cc (rw clash at h))
    | inr free ↦ ground (arith, has_key-copy_rows k rs (r ∷ rows) (rw free at h))
  ]

  outcome_lem :
      (k : ShareKey) (c : Call) (rs rows : List (ShareRecord F))
      (new : Option (List (ShareRecord F)))
      → ((n : List (ShareRecord F)) → new ≡ some n → has_key k n ≡ (has_key k rows || has_key k rs))
      → let done = outcome c rows new in
        (has_key k rows ≡ true → has_key k done.0 ≡ true)
        × (done.1 ≡ true → has_key k rs ≡ true → has_key k done.0 ≡ true)
  unfolding outcome
  outcome_lem k c rs rows none h = (λ there. there, λ done. absurd (cc done))
  outcome_lem k answered rs rows (some n) h =
      (λ there. ground (arith, h n refl, there), λ done there. ground (arith, h n refl, there))
  outcome_lem k failed_before rs rows (some n) h = (λ there. there, λ done. absurd (cc done))
  outcome_lem k failed_after rs rows (some n) h =
      (λ there. ground (arith, h n refl, there), λ done. absurd (cc done))

  -- A call that succeeds has written its shares, and none takes a row away.
  pub has_key-copy_shares :
      (k : ShareKey) (c : Call) (rs rows : List (ShareRecord F))
      → let done = copy_shares c rs rows in
        (has_key k rows ≡ true → has_key k done.0 ≡ true)
        × (done.1 ≡ true → has_key k rs ≡ true → has_key k done.0 ≡ true)
  unfolding copy_shares outcome
  has_key-copy_shares k c rs rows =
      outcome_lem k c rs rows (copy_rows rs rows) (λ n e. has_key-copy_rows k rs rows e)

  pub has_key-copy_shares_idempotent :
      (k : ShareKey) (c : Call) (rs rows : List (ShareRecord F))
      → let done = copy_shares_idempotent c rs rows in
        (has_key k rows ≡ true → has_key k done.0 ≡ true)
        × (done.1 ≡ true → has_key k rs ≡ true → has_key k done.0 ≡ true)
  unfolding copy_shares_idempotent outcome
  has_key-copy_shares_idempotent k c rs rows =
      outcome_lem k c rs rows (some (insert_new rs rows))
        (λ n e. ap (has_key k) (sym (same_some e)) ∙ has_key-insert_new k rs rows)
