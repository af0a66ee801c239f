-- ===== src/Spool/Runs.antt =====
-- Runs of appends and drains against the queue that the spool stands for.
use icminers_stratum_v.Prelude.{
  ℕ, List, [], ◌∷◌, ◌++◌, Bool, true, false, if◌then◌else◌, length, ok, err, ◌≡◌, All, refl,
  append_assoc, sym, ap, ◌∙◌, Bool-cases, inl, inr, append-nil, ◌⊎◌, ◌==◌, ltb, leb, ◌+◌,
}
use icminers_stratum_v.Spool.{
  Codec, Spool, append, whole, drain, drain_with, replaced, drain_batch, keep_rest, write_line,
  rewrite_locked, replay, full, read_all, line_of, commit_batches,
}
use icminers_stratum_v.Spool.Queue.{Fits, IsCodec, Holds, append-Holds, read_all-render}
use icminers_stratum_v.Spool.Drains.{
  confirmed-replay, replay-All, confirmed-commit_batches, commit_batches-All,
}

-- A consumer: what it will answer to each call, and what it has confirmed.
pub record Consumer (R : Type 0) : Type 0 where
  pub answers : List Bool
  pub delivered : List R

module _ {R : Type 0} where
  -- A call with the records of a batch; without an answer it fails.
  unfoldable pub answer : List R → List Bool → List R → Consumer R × Bool
  answer done [] rs = (record { answers = []; delivered = done }, false)
  answer done (true ∷ bs) rs = (record { answers = bs; delivered = done ++ rs }, true)
  answer done (false ∷ bs) rs = (record { answers = bs; delivered = done }, false)

  unfoldable pub take_batch : Consumer R → List R → Consumer R × Bool
  unfolding answer
  take_batch c rs = answer c.delivered c.answers rs

  unfoldable pub take_one : Consumer R → R → Consumer R × Bool
  unfolding take_batch
  take_one c r = take_batch c (r ∷ [])

  pub answer_lem :
      (done : List R) (bs : List Bool) (rs : List R)
      → (answer done bs rs).0.delivered ≡ (if (answer done bs rs).1 then done ++ rs else done)
  unfolding answer
  answer_lem done [] rs = refl
  answer_lem done (true ∷ bs) rs = refl
  answer_lem done (false ∷ bs) rs = refl

-- What is done with a spool; every write goes through.
pub data Op (R : Type 0) : Type 0 where
  push : R → Op R
  drain_each : Op R
  drain_batches : ℕ → Op R

pub record World (R : Type 0) : Type 0 where
  pub spool : Spool
  pub consumer : Consumer R

module _ {R : Type 0} (codec : Codec R) where
  abbrev world_of : (Consumer R × Spool) → World R
  world_of p = record { spool = p.1; consumer = p.0 }

  unfoldable pub perform : Op R → World R → World R
  perform (push r) w = record w { spool = (append codec whole r w.spool).0 }
  perform drain_each w = world_of (drain codec replaced take_one w.consumer w.spool).0
  perform (drain_batches n) w =
      world_of (drain_batch codec replaced n take_batch w.consumer w.spool).0

  -- The record that an operation puts on the queue: an append that is acknowledged.
  unfoldable pub acknowledged : Op R → World R → List R
  acknowledged (push r) w = elim (append codec whole r w.spool).1 [ ok u ↦ r ∷ [] | err e ↦ [] ]
  acknowledged drain_each w = []
  acknowledged (drain_batches n) w = []

  unfoldable pub run : List (Op R) → World R → World R
  run [] w = w
  run (o ∷ os) w = run os (perform o w)

  unfoldable pub all_acknowledged : List (Op R) → World R → List R
  all_acknowledged [] w = []
  all_acknowledged (o ∷ os) w = acknowledged o w ++ all_acknowledged os (perform o w)

  -- Each record is short enough for the scanner.
  unfoldable pub FitsOp : Op R → Type 0
  FitsOp (push r) = Fits codec r
  FitsOp drain_each = Unit
  FitsOp (drain_batches n) = Unit

  module _ (law : IsCodec codec) where
    -- A consumer that keeps its account, given the records of the file.
    drain_with_lem :
        (consume : Consumer R → List R → Consumer R × (List R × Bool)) (c : Consumer R) (sp : Spool)
        (q : List R)
        → Holds codec sp q
        → ((rs : List R) → (consume c rs).0.delivered ++ (consume c rs).1.0 ≡ c.delivered ++ rs)
        → ((rs : List R) → All (Fits codec) rs → All (Fits codec) (consume c rs).1.0)
        → let end = (drain_with codec replaced consume c sp).0 in
          (rest : List R) × Holds codec end.1 rest × (end.0.delivered ++ rest ≡ c.delivered ++ q)
    unfolding drain_with keep_rest rewrite_locked Holds
    drain_with_lem consume c sp q h keeps fits = elim (Bool-cases (sp.size == 0)) [
      | inl empty ↦ rw empty (q, h, refl)
      | inr some_bytes ↦
          let records = ap (read_all codec) h.0 ∙ read_all-render codec law q h.2 in
          rw (some_bytes, records) ((consume c q).1.0, (refl, refl, fits q h.2), keeps q)
    ]

    append_lem :
        (r : R) (s : Spool)
        → ((append codec whole r s).1 ≡ ok tt) ⊎ (append codec whole r s ≡ (s, err full))
    unfolding append write_line
    append_lem r s = elim (Bool-cases (ltb s.max (s.size + length (line_of codec r)))) [
      | inl over ↦ rw over (inr refl)
      | inr room ↦ rw room (inl refl)
    ]

    pub perform_lem :
        (o : Op R) (w : World R) (q : List R)
        → FitsOp o
        → Holds codec w.spool q
        → (rest : List R) × Holds codec (perform o w).spool rest
          × ((perform o w).consumer.delivered ++ rest
              ≡ w.consumer.delivered ++ (q ++ acknowledged o w))
    unfolding perform acknowledged drain drain_batch FitsOp take_one take_batch
    perform_lem (push r) w q f h = elim (append_lem r w.spool) [
      | inl taken ↦
          rw (acknowledged, taken) (q ++ (r ∷ []), append-Holds codec w.spool q r h f taken, refl)
      | inr refused ↦ rw (refused, acknowledged) (q, h, rw (append-nil q) refl)
    ]
    perform_lem drain_each w q f h = rw (append-nil q) (
        drain_with_lem (replay take_one) w.consumer w.spool q h
          (λ rs.
            confirmed-replay (λ c. c.delivered) take_one w.consumer rs
              (λ c r. answer_lem c.delivered c.answers (r ∷ [])))
          (replay-All (Fits codec) take_one w.consumer))
    perform_lem (drain_batches n) w q f h =
        let size = if leb n 0 then 1000 else n in
        rw (append-nil q) (
          drain_with_lem (λ c rs. commit_batches (length rs) size take_batch c rs) w.consumer
            w.spool q h
            (λ rs.
              confirmed-commit_batches (λ c. c.delivered) (length rs) size take_batch w.consumer rs
                (λ c b. answer_lem c.delivered c.answers b))
            (λ rs. commit_batches-All (Fits codec) (length rs) size take_batch w.consumer rs))

    -- If the codec reads back every line that it wrote, each appended record is short enough for the
    -- scanner, the file holds whole lines of such records at first, and every write and rewrite of the
    -- file goes through: whatever the sizes of the batches and the answers of the consumer, after any
    -- appends and drains what the consumer has confirmed, followed by what the file holds, is what it
    -- had confirmed, followed by what the file held and by every acknowledged record, in order.
    pub run-Holds :
        (os : List (Op R)) (w : World R) (q : List R)
        → All FitsOp os
        → Holds codec w.spool q
        → (rest : List R) × Holds codec (run os w).spool rest
          × ((run os w).consumer.delivered ++ rest
              ≡ w.consumer.delivered ++ (q ++ all_acknowledged os w))
    unfolding run all_acknowledged
    run-Holds [] w q f h = (q, h, rw (append-nil q) refl)
    run-Holds (o ∷ os) w q f h =
        let first = perform_lem o w q f.0 h in
        let later = run-Holds os (perform o w) first.0 f.1 first.1 in
        let end = all_acknowledged os (perform o w) in
        let before = w.consumer.delivered in
        (
          later.0,
          later.1,
          later.2
              ∙ sym (append_assoc (perform o w).consumer.delivered first.0 end)
              ∙ ap (λ xs. xs ++ end) first.2
              ∙ append_assoc before (q ++ acknowledged o w) end
              ∙ ap (λ xs. before ++ xs) (append_assoc q (acknowledged o w) end),
        )
