-- ===== src/Stats/Ring/Sums.antt =====
-- What the ring's sum is a sum of.
use icminers_stratum_v.Prelude.{
  ℕ, zero, suc, ◌+◌, ◌-◌, ◌/◌, ◌%◌, ◌<◌, ◌≤◌, ◌≡◌, refl, arith, sym, List, [], ◌∷◌, true,
  if◌then◌else◌, Option, none, some, inl, inr, Bool-cases, ltb, leb, ◌==◌, subst, replicate, ltb→lt,
}
use icminers_stratum_v.Prelude.Floats.{Floats}
use icminers_stratum_v.Stats.Ring.{
  sum_from, ring_sum, Bucket, new_ring, bucket_at, window_minutes, no_bucket, ring_add,
}
use icminers_stratum_v.Stats.Ring.Window.{
  IsRing, IsOrdered, no_totals, EndsBy, Fits, window_from, Sample, minute_totals, add_all, saw,
  ring_add-IsRing,
}

module _ (fl : Floats) where
  open fl use {F, of_ℕ, add}

  new_ring-IsRing : IsRing fl (no_totals fl) 1 (new_ring fl)
  new_ring-IsRing = (refl, λ idx below. unused idx (unused_bucket window_minutes idx))
    where
      unused_bucket : (n i : ℕ) → bucket_at fl (replicate n (no_bucket fl)) i ≡ no_bucket fl
      unused_bucket zero i = refl
      unused_bucket (suc n) zero = refl
      unused_bucket (suc n) (suc i) = unused_bucket n i

      unused : (idx : ℕ) {b : Bucket F} → b ≡ no_bucket fl → Fits fl (no_totals fl) 1 idx b
      unused idx e =
          subst (Fits fl (no_totals fl) 1 idx) (sym e)
            (record { held = λ h. absurd (h refl); later = λ m p r lt. refl; past = omega arith })

  add_all-IsRing :
      (totals : ℕ → Option F) (last : ℕ) (es : List (Sample F)) (ring : List (Bucket F)) (now : ℕ)
      → 60 ≤ last
      → last ≤ now
      → IsOrdered fl last es
      → EndsBy fl now es
      → IsRing fl totals (last / 60) ring
      → IsRing fl (minute_totals fl totals es) (now / 60) (add_all fl ring es)
  unfolding IsOrdered EndsBy minute_totals add_all
  add_all-IsRing totals last [] ring now early late o ends h = (
    h.0,
    λ idx below.
        let f = h.1 idx below in
        record { held = f.held; later = f.later; past = omega (arith, f.past, late) },
  )
  add_all-IsRing totals last (e ∷ es) ring now early late o ends h =
      add_all-IsRing (saw fl e totals) e.at es (ring_add fl e.diff e.at ring) now
        (omega (arith, early, o.0)) ends.0 o.1 ends.1
        (ring_add-IsRing fl totals (last / 60) e ring (omega (arith, early, o.0))
          (omega (arith, o.0)) h)

  -- One minute of the window.
  one_minute :
      (totals : ℕ → Option F) (minute m : ℕ) (total : F) (b : Bucket F)
      → 0 < m
      → m ≤ minute
      → minute < m + 15
      → Fits fl totals minute (m % 15) b
      → (if b.stamp == m then add total b.total else total)
        ≡ elim (totals m) [ none ↦ total | some t ↦ add total t ]
  one_minute totals minute m total b pos low high f = elim (Bool-cases (b.stamp == m)) [
    | inl here ↦
        let same : b.stamp ≡ m = ground (arith, here) in
        let found : totals m ≡ some b.total =
          subst (λ (k : ℕ). totals k ≡ some b.total) same (f.held (omega (arith, same, pos))).1 in
        rw (here, found) refl
    | inr other ↦ elim (Bool-cases (ltb b.stamp m)) [
      | inl older ↦ let gone = f.later m pos refl (ltb→lt b.stamp m older) in rw (other, gone) refl
      | inr newer ↦
          let apart : m < b.stamp = ground (arith, other, newer) in
          absurd (omega (arith, apart, (f.held (omega (arith, apart))).0, f.past, high, low))
    ]
  ]

  sum_from-window_from :
      (n i minute : ℕ) (total : F) (totals : ℕ → Option F) (ring : List (Bucket F))
      → n + i ≤ 15
      → 15 ≤ minute
      → IsRing fl totals minute ring
      → sum_from fl n i minute total ring ≡ window_from fl n i minute total totals
  unfolding sum_from window_from
  sum_from-window_from zero i minute total totals ring fits late h = refl
  sum_from-window_from (suc n) i minute total totals ring fits late h =
      let m = minute - i in
      let b = bucket_at fl ring (m % 15) in
      let inside : leb i minute ≡ true = ground (arith, fits, late) in
      let step =
        one_minute totals minute m total b (omega (arith, fits, late)) (omega arith)
          (omega (arith, fits, late)) (h.1 (m % 15) (omega arith)) in
      rw (inside, step)
        (sum_from-window_from n (i + 1) minute
          (elim (totals m) [ none ↦ total | some t ↦ add total t ]) totals ring
          (omega (arith, fits)) late h)

  -- After any shares whose times do not go back, from the first minute of 1970 on and up to now, and
  -- not before 1970 is fifteen minutes old: the ring's sum is that of the last n minutes, at most 15,
  -- that saw a share, the current one included as far as it has gone; each minute is summed up over
  -- exactly its shares, in their order. This holds for every arithmetic of floats.
  pub ring_sum-add_all :
      (n now : ℕ) (es : List (Sample F))
      → 900 ≤ now
      → IsOrdered fl 60 es
      → EndsBy fl now es
      → ring_sum fl n now (add_all fl (new_ring fl) es)
        ≡ window_from fl
            (if ltb window_minutes n then window_minutes else n)
            0
            (now / 60)
            (of_ℕ 0)
            (minute_totals fl (no_totals fl) es)
  unfolding ring_sum
  ring_sum-add_all n now es late o ends =
      sum_from-window_from (if ltb window_minutes n then window_minutes else n) 0 (now / 60)
        (of_ℕ 0) (minute_totals fl (no_totals fl) es) (add_all fl (new_ring fl) es) (ground arith)
        (omega (arith, late))
        (add_all-IsRing (no_totals fl) 60 es (new_ring fl) now (omega arith) (omega (arith, late)) o
          ends new_ring-IsRing)
