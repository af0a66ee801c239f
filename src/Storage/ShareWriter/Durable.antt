-- ===== src/Storage/ShareWriter/Durable.antt =====
-- Runs of the share writer.
use icminers_stratum_v.Prelude.{
  ℕ, zero, suc, ◌≤◌, List, [], ◌∷◌, ◌++◌, Bool, true, false, ◌||◌, ◌≡◌, refl, arith, some, none,
  take, drop, if◌then◌else◌, Bool-cases, inl, inr, leb, length, ltb, Option,
}
use icminers_stratum_v.Storage.ShareWriter.{
  share_key_eq, ShareKey, flush, receive, commit_batches, recover, enqueue, Call, has_key,
  ShareRecord, copy_shares_idempotent, Writer, insert_batch, copy_shares, key_of, receive_from,
  recover_from, wal_drain_batch_size, LogFile, log_after, readable, unreadable,
}
use icminers_stratum_v.Spool.{commit_batches, Rewrite, replaced, kept, not_reopened}
use icminers_stratum_v.Storage.ShareWriter.Laws.{
  held, Keeps, after_copy_lem, divert_lem, Keeps-trans, wal_has,
}
use icminers_stratum_v.Payouts.{Call}
use icminers_stratum_v.Storage.ShareWriter.Rows.{
  has_key-append, has_key-copy_shares_idempotent, has_key-copy_shares, has_key-take-drop,
}

module _ {F : Type 0} where
  -- The call that a flush makes.
  flush_call_lem :
      (k : ShareKey) (c : Call) (retained : Bool) (rs rows : List (ShareRecord F))
      → let done = if retained then copy_shares_idempotent c rs rows else copy_shares c rs rows in
        (has_key k rows ≡ true → has_key k done.0 ≡ true)
        × (done.1 ≡ true → has_key k rs ≡ true → has_key k done.0 ≡ true)
  flush_call_lem k c true rs rows = has_key-copy_shares_idempotent k c rs rows
  flush_call_lem k c false rs rows = has_key-copy_shares k c rs rows

  emptied_lem :
      (k : ShareKey) (w : Writer F)
      → held k w ≡ true
      → has_key k (w.pending ++ w.batch) ≡ false
      → held k (record w { pending = []; batch = [] }) ≡ true
  unfolding held has_key
  emptied_lem k w there gone = ground (arith, there, gone, has_key-append k w.pending w.batch)

  flush_lem :
      (k : ShareKey) (c : Call) (accepts : ShareRecord F → Bool) (w : Writer F)
      → Keeps k w (flush c accepts w)
  unfolding flush
  flush_lem k c accepts w = elim (Bool-cases (leb (length (w.pending ++ w.batch)) 0)) [
    | inl idle ↦ rw idle (omega arith, λ e there. there)
    | inr busy ↦
        let rs = w.pending ++ w.batch in
        let call = flush_call_lem k c (ltb 0 (length w.pending)) rs w.rows in
        let end =
          after_copy_lem k accepts rs _ (record w { pending = []; batch = [] }) call.0 call.1 in
        rw busy (
          end.0.0,
          λ e there. elim (Bool-cases (has_key k rs)) [
            | inl handed ↦ end.1 e handed
            | inr gone ↦ end.0.1 e (emptied_lem k w there gone)
          ],
        )
  ]

  taken_lem :
      (k : ShareKey) (w : Writer F) (r : ShareRecord F) (rs : List (ShareRecord F))
      → w.queue ≡ r ∷ rs
      → Keeps k w (record w { queue = rs; batch = w.batch ++ (r ∷ []) })
  unfolding held has_key
  taken_lem k w r rs e =
      (omega arith, λ same there. ground (arith, rw e at there, has_key-append k w.batch (r ∷ [])))

  receive_from_lem :
      (k : ShareKey) (c : Call) (accepts : ShareRecord F → Bool) (q : List (ShareRecord F))
      (w : Writer F)
      → w.queue ≡ q
      → Keeps k w (receive_from c accepts q w)
  unfolding receive_from
  receive_from_lem k c accepts [] w e = (omega arith, λ same there. there)
  receive_from_lem k c accepts (r ∷ rs) w e =
      let taken = record w { queue = rs; batch = w.batch ++ (r ∷ []) } in
      let first = taken_lem k w r rs e in
      elim (Bool-cases (leb taken.opts.batch_size (length taken.batch))) [
        | inr few ↦ rw few first
        | inl enough ↦ rw enough (Keeps-trans k w taken _ first (flush_lem k c accepts taken))
      ]

  insert_batch_lem :
      (k : ShareKey) (rows : List (ShareRecord F)) (calls : List Call) (rs : List (ShareRecord F))
      → let done = insert_batch (rows, calls) rs in
        (has_key k rows ≡ true → has_key k done.0.0 ≡ true)
        × (done.1 ≡ true → has_key k rs ≡ true → has_key k done.0.0 ≡ true)
  unfolding insert_batch
  insert_batch_lem k rows [] rs = (λ there. there, λ done. absurd (cc done))
  insert_batch_lem k rows (c ∷ cs) rs = has_key-copy_shares_idempotent k c rs rows

  -- Each batch of the log ends in the table or stays.
  pub commit_batches_lem :
      (k : ShareKey) (fuel n : ℕ) (rows : List (ShareRecord F)) (calls : List Call)
      (log : List (ShareRecord F))
      → (has_key k rows || has_key k log) ≡ true
      → let end = commit_batches fuel n insert_batch (rows, calls) log in
        (has_key k end.0.0 || has_key k end.1.0) ≡ true
  unfolding commit_batches
  commit_batches_lem k zero n rows calls log h = h
  commit_batches_lem k (suc fuel) n rows calls [] h = h
  commit_batches_lem k (suc fuel) n rows calls (r ∷ log) h =
      let batch = take n (r ∷ log) in
      let call = insert_batch_lem k rows calls batch in
      let halves = has_key-take-drop k n (r ∷ log) in
      elim (Bool-cases (insert_batch (rows, calls) batch).1) [
        | inr refused ↦ rw refused (ground (arith, h, call.0))
        | inl done ↦ rw done (
            commit_batches_lem k fuel n (insert_batch (rows, calls) batch).0.0
              (insert_batch (rows, calls) batch).0.1 (drop n (r ∷ log))
              (ground (arith, h, halves, call.0, call.1 done)))
      ]

  -- What is left to commit was in the log.
  commit_batches-rest :
      (k : ShareKey) (fuel n : ℕ) (rows : List (ShareRecord F)) (calls : List Call)
      (log : List (ShareRecord F))
      → has_key k (commit_batches fuel n insert_batch (rows, calls) log).1.0 ≡ true
      → has_key k log ≡ true
  unfolding commit_batches
  commit_batches-rest k zero n rows calls log h = h
  commit_batches-rest k (suc fuel) n rows calls [] h = h
  commit_batches-rest k (suc fuel) n rows calls (r ∷ log) h =
      let batch = take n (r ∷ log) in
      let next = (insert_batch (rows, calls) batch).0 in
      elim (Bool-cases (insert_batch (rows, calls) batch).1) [
        | inr refused ↦ rw refused at h
        | inl done ↦
            let later =
              commit_batches-rest k fuel n next.0 next.1 (drop n (r ∷ log)) (rw done at h) in
            ground (arith, later, has_key-take-drop k n (r ∷ log))
      ]

  log_after_lem :
      (k : ShareKey) (rewrite : Rewrite) (log rest rows : List (ShareRecord F))
      → (has_key k rest ≡ true → has_key k log ≡ true)
      → (has_key k rows || has_key k rest) ≡ true
      → (has_key k rows || has_key k (log_after rewrite log rest)) ≡ true
  log_after_lem k replaced log rest rows inside h = h
  log_after_lem k kept log rest rows inside h = ground (arith, inside, h)
  log_after_lem k not_reopened log rest rows inside h = h

  recover_from_lem :
      (k : ShareKey) (file : LogFile) (calls : List Call) (wal : Option (List (ShareRecord F)))
      (w : Writer F)
      → w.wal ≡ wal
      → Keeps k w (recover_from file calls wal w)
  unfolding recover_from held wal_has
  recover_from_lem k file calls none w e = (omega arith, λ same there. there)
  recover_from_lem k unreadable calls (some log) w e = (omega arith, λ same there. there)
  recover_from_lem k (readable rewrite) calls (some log) w e = (
    omega arith,
    λ same there. elim (Bool-cases (has_key k w.rows || has_key k log)) [
      | inl moved ↦
          let size = length log in
          let end = commit_batches size wal_drain_batch_size insert_batch (w.rows, calls) log in
          let there =
            log_after_lem k rewrite log end.1.0 end.0.0
              (commit_batches-rest k size wal_drain_batch_size w.rows calls log)
              (commit_batches_lem k size wal_drain_batch_size w.rows calls log moved) in
          ground (arith, there)
      | inr elsewhere ↦ ground (arith, elsewhere, rw e at there)
    ],
  )

  enqueue_lem :
      (k : ShareKey) (accepts : Bool) (r : ShareRecord F) (w : Writer F)
      → Keeps k w (enqueue accepts r w)
        × ((enqueue accepts r w).dropped ≡ w.dropped
            → share_key_eq.beq (key_of r) k ≡ true
            → held k (enqueue accepts r w) ≡ true)
  unfolding enqueue held has_key
  enqueue_lem k accepts r w = elim (Bool-cases (ltb (length w.queue) w.opts.queue_size)) [
    | inr full ↦ rw full (divert_lem k accepts r w)
    | inl room ↦ rw room (
      (omega arith, λ e there. ground (arith, there, has_key-append k w.queue (r ∷ []))),
      λ e same. ground (arith, same, has_key-append k w.queue (r ∷ [])),
    )
  ]

-- What happens to the writer, `Close` excepted.
pub data Event (F : Type 0) : Type 0 where
  enqueued : Bool → ShareRecord F → Event F
  received : Call → (ShareRecord F → Bool) → Event F
  ticked : Call → (ShareRecord F → Bool) → Event F
  recovered : LogFile → List Call → Event F

module _ {F : Type 0} where
  unfoldable pub happen : Event F → Writer F → Writer F
  happen (enqueued accepts r) w = enqueue accepts r w
  happen (received c accepts) w = receive c accepts w
  happen (ticked c accepts) w = flush c accepts w
  happen (recovered file calls) w = recover file calls w

  unfoldable pub happen_all : List (Event F) → Writer F → Writer F
  happen_all [] w = w
  happen_all (e ∷ es) w = happen_all es (happen e w)

  -- The share is handed to the writer.
  unfoldable pub is_enqueued : ShareKey → List (Event F) → Bool
  is_enqueued k [] = false
  is_enqueued k (enqueued accepts r ∷ es) = share_key_eq.beq (key_of r) k || is_enqueued k es
  is_enqueued k (received c accepts ∷ es) = is_enqueued k es
  is_enqueued k (ticked c accepts ∷ es) = is_enqueued k es
  is_enqueued k (recovered file calls ∷ es) = is_enqueued k es

  happen_lem : (k : ShareKey) (e : Event F) (w : Writer F) → Keeps k w (happen e w)
  unfolding happen receive recover
  happen_lem k (enqueued accepts r) w = (enqueue_lem k accepts r w).0
  happen_lem k (received c accepts) w = receive_from_lem k c accepts w.queue w refl
  happen_lem k (ticked c accepts) w = flush_lem k c accepts w
  happen_lem k (recovered file calls) w = recover_from_lem k file calls w.wal w refl

  happen_all-Keeps :
      (k : ShareKey) (es : List (Event F)) (w : Writer F) → Keeps k w (happen_all es w)
  unfolding happen_all
  happen_all-Keeps k [] w = (omega arith, λ e there. there)
  happen_all-Keeps k (e ∷ es) w =
      Keeps-trans k w (happen e w) _ (happen_lem k e w) (happen_all-Keeps k es (happen e w))

  stayed :
      (u v w : Writer F)
      → u.dropped ≤ v.dropped
      → v.dropped ≤ w.dropped
      → w.dropped ≡ u.dropped
      → v.dropped ≡ u.dropped
  stayed u v w h g e = omega (arith, h, g, e)

  -- A first event that loses nothing does not matter.
  later :
      (k : ShareKey) (e : Event F) (es : List (Event F)) (w : Writer F) {P : Type 0}
      → (happen_all es (happen e w)).dropped ≡ w.dropped
      → ((happen_all es (happen e w)).dropped ≡ (happen e w).dropped → P)
      → P
  later k e es w total go =
      let first = happen_lem k e w in
      let rest = happen_all-Keeps k es (happen e w) in go (omega (arith, total, first.0, rest.0))

  -- Whatever becomes of the database calls and of the log: after any sequence of shares handed in,
  -- shares taken off the queue, flushes and recovery rounds, either the count of dropped shares has
  -- gone up, or every share that was handed in is in the queue, the batch, the retained shares, the
  -- table or the log.
  pub held-happen_all :
      (k : ShareKey) (es : List (Event F)) (w : Writer F)
      → is_enqueued k es ≡ true
      → (happen_all es w).dropped ≡ w.dropped
      → held k (happen_all es w) ≡ true
  unfolding happen happen_all is_enqueued
  held-happen_all k [] w given none_lost = absurd (cc given)
  held-happen_all k (enqueued accepts r ∷ es) w given none_lost =
      let next = enqueue accepts r w in
      let here = enqueue_lem k accepts r w in
      let rest = happen_all-Keeps k es next in
      elim (Bool-cases (share_key_eq.beq (key_of r) k)) [
        | inr other ↦
            later k (enqueued accepts r) es w none_lost
              (held-happen_all k es next (rw other at given))
        | inl same ↦ later k (enqueued accepts r) es w none_lost (λ quiet.
            rest.1 quiet
              (here.1 (stayed w next (happen_all es next) here.0.0 rest.0 none_lost) same))
      ]
  held-happen_all k (received c accepts ∷ es) w given none_lost =
      later k (received c accepts) es w none_lost
        (held-happen_all k es (happen (received c accepts) w) given)
  held-happen_all k (ticked c accepts ∷ es) w given none_lost =
      later k (ticked c accepts) es w none_lost
        (held-happen_all k es (happen (ticked c accepts) w) given)
  held-happen_all k (recovered file calls ∷ es) w given none_lost =
      later k (recovered file calls) es w none_lost
        (held-happen_all k es (happen (recovered file calls) w) given)
