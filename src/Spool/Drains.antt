-- ===== src/Spool/Drains.antt =====
-- What a drain takes off the queue: a consumer that keeps an account of what it confirmed.
use icminers_stratum_v.Prelude.{
  ℕ, zero, suc, ◌<◌, List, [], ◌∷◌, ◌++◌, Bool, true, if◌then◌else◌, length, take, drop, ◌≡◌, All,
  refl, arith, append_assoc, ap, ◌∙◌, Bool-cases, inl, inr, take-append-drop, ◌≤◌, length-drop,
}
use icminers_stratum_v.Spool.{commit_batches, replay}

module _ {R S : Type 0} (confirmed : S → List R) where
  -- A consumer of one record that records what it confirms, and nothing else.
  abbrev pub CountsOne : (S → R → S × Bool) → Type 0
  CountsOne fn =
      (s : S) (r : R)
      → confirmed (fn s r).0 ≡ (if (fn s r).1 then confirmed s ++ (r ∷ []) else confirmed s)

  abbrev pub CountsBatch : (S → List R → S × Bool) → Type 0
  CountsBatch fn =
      (s : S) (rs : List R)
      → confirmed (fn s rs).0 ≡ (if (fn s rs).1 then confirmed s ++ rs else confirmed s)

  pub confirmed-replay :
      (fn : S → R → S × Bool) (s : S) (rs : List R)
      → CountsOne fn
      → confirmed (replay fn s rs).0 ++ (replay fn s rs).1.0 ≡ confirmed s ++ rs
  unfolding replay
  confirmed-replay fn s [] h = refl
  confirmed-replay fn s (r ∷ rs) h = elim (Bool-cases (fn s r).1) [
    | inr refused ↦ rw (refused, h s r, refused) refl
    | inl taken ↦ rw taken (
        confirmed-replay fn (fn s r).0 rs h
        ∙ rw (h s r, taken) (append_assoc (confirmed s) (r ∷ []) rs))
  ]

  pub confirmed-commit_batches :
      (fuel n : ℕ) (fn : S → List R → S × Bool) (s : S) (rs : List R)
      → CountsBatch fn
      → confirmed (commit_batches fuel n fn s rs).0 ++ (commit_batches fuel n fn s rs).1.0
        ≡ confirmed s ++ rs
  unfolding commit_batches
  confirmed-commit_batches zero n fn s rs h = refl
  confirmed-commit_batches (suc fuel) n fn s [] h = refl
  confirmed-commit_batches (suc fuel) n fn s (r ∷ rs) h =
      let batch = take n (r ∷ rs) in
      elim (Bool-cases (fn s batch).1) [
        | inr refused ↦ rw (refused, h s batch, refused) refl
        | inl taken ↦ rw taken (
            confirmed-commit_batches fuel n fn (fn s batch).0 (drop n (r ∷ rs)) h
            ∙ rw (h s batch, taken)
                (append_assoc (confirmed s) batch (drop n (r ∷ rs))
                  ∙ ap (λ xs. confirmed s ++ xs) (take-append-drop n (r ∷ rs))))
      ]

drop-All : {R : Type 0} (P : R → Type 0) (n : ℕ) (rs : List R) → All P rs → All P (drop n rs)
drop-All P zero rs h = h
drop-All P (suc n) [] h = tt
drop-All P (suc n) (r ∷ rs) h = drop-All P n rs h.1

module _ {R S : Type 0} (P : R → Type 0) where
  pub replay-All :
      (fn : S → R → S × Bool) (s : S) (rs : List R) → All P rs → All P (replay fn s rs).1.0
  unfolding replay
  replay-All fn s [] h = tt
  replay-All fn s (r ∷ rs) h = elim (Bool-cases (fn s r).1) [
    | inr refused ↦ rw refused h
    | inl taken ↦ rw taken (replay-All fn (fn s r).0 rs h.1)
  ]

  pub commit_batches-All :
      (fuel n : ℕ) (fn : S → List R → S × Bool) (s : S) (rs : List R)
      → All P rs
      → All P (commit_batches fuel n fn s rs).1.0
  unfolding commit_batches
  commit_batches-All zero n fn s rs h = h
  commit_batches-All (suc fuel) n fn s [] h = h
  commit_batches-All (suc fuel) n fn s (r ∷ rs) h =
      let batch = take n (r ∷ rs) in
      elim (Bool-cases (fn s batch).1) [
        | inr refused ↦ rw refused h
        | inl taken ↦ rw taken (
            commit_batches-All fuel n fn (fn s batch).0 (drop n (r ∷ rs)) (drop-All P n (r ∷ rs) h))
      ]

-- With a batch size that is not 0 and a consumer that takes every batch, nothing is left.
pub commit_batches-nil :
    {R S : Type 0} (fuel n : ℕ) (fn : S → List R → S × Bool) (s : S) (rs : List R)
    → 0 < n
    → length rs ≤ fuel
    → ((t : S) (b : List R) → (fn t b).1 ≡ true)
    → (commit_batches fuel n fn s rs).1 ≡ ([], true)
unfolding commit_batches
commit_batches-nil zero n fn s [] pos short takes = refl
commit_batches-nil zero n fn s (r ∷ rs) pos short takes = absurd (omega (arith, short))
commit_batches-nil (suc fuel) n fn s [] pos short takes = refl
commit_batches-nil (suc fuel) zero fn s (r ∷ rs) pos short takes = absurd (omega (arith, pos))
commit_batches-nil (suc fuel) (suc m) fn s (r ∷ rs) pos short takes = rw (takes s (r ∷ take m rs)) (
    commit_batches-nil fuel (suc m) fn (fn s (r ∷ take m rs)).0 (drop m rs) pos
      (omega (arith, short, length-drop m rs)) takes)
