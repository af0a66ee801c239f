-- ===== src/Storage/ShareWriter/Recovery.antt =====
-- A recovery round against a database that answers, and what a failing shutdown loses.
use icminers_stratum_v.Prelude.{
  ℕ, zero, suc, ◌≤◌, List, [], ◌∷◌, Bool, true, false, ◌||◌, ◌≡◌, refl, arith, some, drop, take,
  length, length-drop, replicate, ap, Option-cases, ◌++◌, inl, inr,
}
use icminers_stratum_v.Storage.ShareWriter.{
  share_key_eq, commit_batches, recover, final_flush, insert_batch, recover_from,
  copy_shares_idempotent, Writer, copy_shares, outcome, ShareRecord, answered, ShareKey, has_key,
  insert_new, copy_rows, wal_drain_batch_size, readable, log_after, unreadable,
}
use icminers_stratum_v.Spool.{commit_batches, Rewrite}
use icminers_stratum_v.Storage.ShareWriter.Laws.{held, wal_has}
use icminers_stratum_v.Payouts.{answered, failed_before}
use icminers_stratum_v.Storage.ShareWriter.Durable.{commit_batches_lem}

moved_out : {a b : Bool} → (a || b) ≡ true → b ≡ false → a ≡ true
moved_out h g = ground (arith, h, g)

module _ {F : Type 0} where
  copy_shares-failed :
      (rs rows : List (ShareRecord F)) → copy_shares failed_before rs rows ≡ (rows, false)
  unfolding copy_shares outcome
  copy_shares-failed rs rows = elim (Option-cases (copy_rows rs rows)) [
    | inl clash ↦ rw (clash, outcome) refl
    | inr (new, e) ↦ rw (e, outcome) refl
  ]

  -- Calls that are all answered take everything.
  commit_batches-replicate :
      (fuel n : ℕ) (rows log : List (ShareRecord F))
      → length log ≤ fuel
      → (commit_batches fuel (suc n) insert_batch (rows, replicate fuel answered) log).1
        ≡ ([], true)
  unfolding commit_batches insert_batch copy_shares_idempotent outcome
  commit_batches-replicate zero n rows [] h = refl
  commit_batches-replicate zero n rows (r ∷ log) h = absurd (omega (arith, h))
  commit_batches-replicate (suc fuel) n rows [] h = refl
  commit_batches-replicate (suc fuel) n rows (r ∷ log) h =
      commit_batches-replicate fuel n (insert_new (r ∷ take n log) rows) (drop n log)
        (omega (arith, h, length-drop n log))

  -- If the log's file can be read and every database call of a recovery round is answered, then every
  -- share that was in the log is in the table after the round, whatever becomes of the rewrite; the log
  -- is empty afterwards, or, where the rewrite fails and leaves the old file, as it was. From a log
  -- that cannot be read nothing is moved.
  pub recover-answered :
      (w : Writer F) (log : List (ShareRecord F)) (rewrite : Rewrite) (k : ShareKey)
      → w.wal ≡ some log
      → let calls = replicate (length log) answered in
        let end = recover (readable rewrite) calls w in
        (has_key k log ≡ true → has_key k end.rows ≡ true)
        × (end.wal ≡ some (log_after rewrite log []))
        × (recover unreadable calls w ≡ w)
  unfolding recover recover_from
  recover-answered w log rewrite k on =
      let calls = replicate (length log) answered in
      let rest = commit_batches-replicate (length log) 999 w.rows log (omega arith) in
      rw (on, recover_from)
        (
          λ there.
              moved_out
                (commit_batches_lem k (length log) wal_drain_batch_size w.rows calls log
                  (ground (arith, there)))
                (ap (λ p. has_key k p.0) rest),
          ap (λ p. some (log_after rewrite log p.0)) rest,
          refl,
        )

  -- A share that is neither in the table nor in the log when the writer stops, and whose last COPY
  -- fails, is nowhere afterwards, and no count tells, with a log or without one.
  pub final_flush-lost :
      (w : Writer F) (k : ShareKey)
      → has_key k w.rows ≡ false
      → wal_has k w.wal ≡ false
      → (held k (final_flush failed_before w) ≡ false)
        × ((final_flush failed_before w).dropped ≡ w.dropped)
  unfolding held has_key final_flush
  final_flush-lost w k a b =
      rw (final_flush, copy_shares-failed (w.pending ++ (w.batch ++ w.queue)) w.rows)
        (ground (arith, a, b), refl)
