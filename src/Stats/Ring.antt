-- ===== src/Stats/Ring.antt =====
-- `minuteRing`: fifteen buckets, each with the minute that it belongs to.
pub mod Window
pub mod Sums
use icminers_stratum_v.Prelude.{
  ℕ, zero, suc, ◌+◌, ◌-◌, ◌/◌, ◌%◌, List, [], ◌∷◌, ltb, leb, ◌==◌, if◌then◌else◌, none, some,
  get_elem?, replicate,
}
use icminers_stratum_v.Prelude.Floats.{Floats}

abbrev pub window_minutes : ℕ
window_minutes = 15

pub record Bucket (F : Type 0) : Type 0 where
  pub total : F
  pub stamp : ℕ

-- A write out of bounds changes nothing; every use is in range.
abbrev pub set {ℓ} : {A : Type ℓ} → List A → ℕ → A → List A
set [] i v = []
set (x ∷ xs) zero v = v ∷ xs
set (x ∷ xs) (suc i) v = x ∷ set xs i v

module _ (fl : Floats) where
  open fl use {F, of_ℕ, add, mul, div}

  -- The zero value of the buckets.
  abbrev pub no_bucket : Bucket F
  no_bucket = record { total = of_ℕ 0; stamp = 0 }

  abbrev pub new_ring : List (Bucket F)
  new_ring = replicate window_minutes no_bucket

  abbrev pub bucket_at : List (Bucket F) → ℕ → Bucket F
  bucket_at ring i = elim (get_elem? ring i) [ none ↦ no_bucket | some b ↦ b ]

  -- A bucket of an earlier minute starts anew.
  abbrev pub put_in : ℕ → F → Bucket F → Bucket F
  put_in minute diff b = record {
    total = add (if b.stamp == minute then b.total else of_ℕ 0) diff;
    stamp = minute;
  }

  unfoldable pub ring_add : F → ℕ → List (Bucket F) → List (Bucket F)
  ring_add diff now ring =
      let minute = now / 60 in
      let idx = minute % window_minutes in set ring idx (put_in minute diff (bucket_at ring idx))

  -- The loop: `n` minutes to go, the next being the i-th before this one. A minute before 1970 has no
  -- bucket, since no stamp is negative.
  unfoldable pub sum_from : ℕ → ℕ → ℕ → F → List (Bucket F) → F
  sum_from zero i minute total ring = total
  sum_from (suc n) i minute total ring =
      let b = bucket_at ring ((minute - i) % window_minutes) in
      sum_from n (i + 1) minute
        (if leb i minute
          then (if b.stamp == minute - i then add total b.total else total)
          else total)
        ring

  unfoldable pub ring_sum : ℕ → ℕ → List (Bucket F) → F
  unfolding sum_from
  ring_sum n now ring =
      sum_from (if ltb window_minutes n then window_minutes else n) 0 (now / 60) (of_ℕ 0) ring

  abbrev pub pow2x32 : F
  pow2x32 = of_ℕ 4294967296

  -- A window in seconds.
  unfoldable pub hashrate : F → ℕ → F
  hashrate diff_sum window =
      if leb window 0 then of_ℕ 0 else div (mul diff_sum pow2x32) (of_ℕ window)
