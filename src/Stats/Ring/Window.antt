-- ===== src/Stats/Ring/Window.antt =====
-- The ring against the list of all shares.
use icminers_stratum_v.Prelude.{
  ℕ, zero, suc, ◌+◌, ◌-◌, ◌/◌, ◌%◌, ◌<◌, ◌≤◌, ◌≡◌, ◌≢◌, ◌⊎◌, refl, arith, ap, sym, ◌∙◌, List, [],
  ◌∷◌, true, false, if◌then◌else◌, Option, none, some, inl, inr, Bool-cases, ◌==◌, length, All,
  subst,
}
use icminers_stratum_v.Prelude.Floats.{Floats}
use icminers_stratum_v.Stats.Ring.{ring_add, set, Bucket, bucket_at, put_in}

-- A share of a difficulty at a time.
pub record Sample (F : Type 0) : Type 0 where
  pub diff : F
  pub at : ℕ

bucket_count {ℓ} : {A : Type ℓ} (xs : List A) (i : ℕ) (v : A) → length (set xs i v) ≡ length xs
bucket_count [] i v = refl
bucket_count (x ∷ xs) zero v = refl
bucket_count (x ∷ xs) (suc i) v = ap suc (bucket_count xs i v)

module _ (fl : Floats) where
  open fl use {F, of_ℕ, add}

  abbrev or_zero : Option F → F
  or_zero none = of_ℕ 0
  or_zero (some t) = t

  -- What each minute has seen, summed up in the order of the shares; `none` if there was no share.
  abbrev pub saw : Sample F → (ℕ → Option F) → ℕ → Option F
  saw e totals m = if m == e.at / 60 then some (add (or_zero (totals m)) e.diff) else totals m

  unfoldable pub minute_totals : (ℕ → Option F) → List (Sample F) → ℕ → Option F
  minute_totals totals [] = totals
  minute_totals totals (e ∷ es) = minute_totals (saw e totals) es

  abbrev pub no_totals : ℕ → Option F
  no_totals m = none

  -- The sum over the n minutes up to a minute, the latest first, of those that saw a share.
  unfoldable pub window_from : ℕ → ℕ → ℕ → F → (ℕ → Option F) → F
  window_from zero i minute total totals = total
  window_from (suc n) i minute total totals =
      window_from n (i + 1) minute
        (elim (totals (minute - i)) [ none ↦ total | some t ↦ add total t ]) totals

  unfoldable pub add_all : List (Bucket F) → List (Sample F) → List (Bucket F)
  add_all ring [] = ring
  add_all ring (e ∷ es) = add_all (ring_add fl e.diff e.at ring) es

  -- Times that do not go back, from a first one on.
  unfoldable pub IsOrdered : ℕ → List (Sample F) → Type 0
  IsOrdered last [] = Unit
  IsOrdered last (e ∷ es) = (last ≤ e.at) × IsOrdered e.at es

  unfoldable pub EndsBy : ℕ → List (Sample F) → Type 0
  EndsBy now es = All (λ e. e.at ≤ now) es

  -- A bucket against the totals, at a minute that is not before any share.
  pub record Fits (totals : ℕ → Option F) (minute idx : ℕ) (b : Bucket F) : Type 0 where
    pub held : b.stamp ≢ 0 → (b.stamp % 15 ≡ idx) × (totals b.stamp ≡ some b.total)
    pub later : (m : ℕ) → 0 < m → m % 15 ≡ idx → b.stamp < m → totals m ≡ none
    pub past : b.stamp ≤ minute

  abbrev pub IsRing : (ℕ → Option F) → ℕ → List (Bucket F) → Type 0
  IsRing totals minute ring =
      (length ring ≡ 15) × ((idx : ℕ) → idx < 15 → Fits totals minute idx (bucket_at fl ring idx))

  bucket_at-set_self :
      (ring : List (Bucket F)) (i : ℕ) (v : Bucket F)
      → i < length ring
      → bucket_at fl (set ring i v) i ≡ v
  bucket_at-set_self [] i v h = absurd (omega (arith, h))
  bucket_at-set_self (b ∷ bs) zero v h = refl
  bucket_at-set_self (b ∷ bs) (suc i) v h = bucket_at-set_self bs i v (omega (arith, h))

  bucket_at-set_other :
      (ring : List (Bucket F)) (i j : ℕ) (v : Bucket F)
      → i ≢ j
      → bucket_at fl (set ring i v) j ≡ bucket_at fl ring j
  bucket_at-set_other [] i j v h = refl
  bucket_at-set_other (b ∷ bs) zero zero v h = absurd (h refl)
  bucket_at-set_other (b ∷ bs) zero (suc j) v h = refl
  bucket_at-set_other (b ∷ bs) (suc i) zero v h = refl
  bucket_at-set_other (b ∷ bs) (suc i) (suc j) v h =
      bucket_at-set_other bs i j v (λ e. h (omega (arith, e)))

  saw_here :
      (e : Sample F) (totals : ℕ → Option F) (m : ℕ)
      → m ≡ e.at / 60
      → saw e totals m ≡ some (add (or_zero (totals m)) e.diff)
  saw_here e totals m h = let t : (m == e.at / 60) ≡ true = ground (arith, h) in rw t refl

  saw_elsewhere :
      (e : Sample F) (totals : ℕ → Option F) (m : ℕ) → m ≢ e.at / 60 → saw e totals m ≡ totals m
  saw_elsewhere e totals m h = let t : (m == e.at / 60) ≡ false = ground (arith, h) in rw t refl

  -- The bucket that a share goes to, and any other one.
  put_in-Fits :
      (totals : ℕ → Option F) (minute : ℕ) (e : Sample F) (b : Bucket F)
      → 0 < e.at / 60
      → minute ≤ e.at / 60
      → Fits totals minute (e.at / 60 % 15) b
      → Fits (saw e totals) (e.at / 60) (e.at / 60 % 15) (put_in fl (e.at / 60) e.diff b)
  put_in-Fits totals minute e b pos order f = record {
    held = λ h. (
      refl,
      saw_here e totals (e.at / 60) refl ∙ ap some (same (Bool-cases (b.stamp == e.at / 60))),
    );
    later = λ m p r lt.
        saw_elsewhere e totals m (omega (arith, lt))
        ∙ f.later m p r (omega (arith, lt, f.past, order));
    past = omega arith;
  }
    where
      same :
          ((b.stamp == e.at / 60) ≡ true) ⊎ ((b.stamp == e.at / 60) ≡ false)
          → add (or_zero (totals (e.at / 60))) e.diff
            ≡ add (if b.stamp == e.at / 60 then b.total else of_ℕ 0) e.diff
      same (inl old) =
          let stamp : b.stamp ≡ e.at / 60 = ground (arith, old) in
          let total = (f.held (omega (arith, stamp, pos))).1 in rw (old, ← stamp, total) refl
      same (inr new) =
          let gone = f.later (e.at / 60) pos refl (ground (arith, new, f.past, order)) in
          rw (new, gone) refl

  other-Fits :
      (totals : ℕ → Option F) (minute idx : ℕ) (e : Sample F) (b : Bucket F)
      → minute ≤ e.at / 60
      → e.at / 60 % 15 ≢ idx
      → Fits totals minute idx b
      → Fits (saw e totals) (e.at / 60) idx b
  other-Fits totals minute idx e b order apart f = record {
    held = λ h.
        let (r, t) = f.held h in
        (
          r,
          saw_elsewhere e totals b.stamp (λ same. apart (ap (λ (x : ℕ). x % 15) (sym same) ∙ r))
              ∙ t,
        );
    later = λ m p r lt.
        saw_elsewhere e totals m (λ same. apart (ap (λ (x : ℕ). x % 15) (sym same) ∙ r))
        ∙ f.later m p r lt;
    past = omega (arith, f.past, order);
  }

  pub ring_add-IsRing :
      (totals : ℕ → Option F) (minute : ℕ) (e : Sample F) (ring : List (Bucket F))
      → 0 < e.at / 60
      → minute ≤ e.at / 60
      → IsRing totals minute ring
      → IsRing (saw e totals) (e.at / 60) (ring_add fl e.diff e.at ring)
  unfolding ring_add
  ring_add-IsRing totals minute e ring pos order h =
      let slot = e.at / 60 % 15 in
      let v = put_in fl (e.at / 60) e.diff (bucket_at fl ring slot) in
      (
        bucket_count ring slot v ∙ h.0,
        λ idx below. elim (Bool-cases (slot == idx)) [
          | inl here ↦
              let same : slot ≡ idx = ground (arith, here) in
              subst
                (λ (i : ℕ). Fits (saw e totals) (e.at / 60) i (bucket_at fl (set ring slot v) i))
                same
                (subst (Fits (saw e totals) (e.at / 60) slot)
                  (sym (bucket_at-set_self ring slot v (omega (arith, h.0))))
                  (put_in-Fits totals minute e (bucket_at fl ring slot) pos order
                    (h.1 slot (omega arith))))
          | inr there ↦
              let apart : slot ≢ idx = ground (arith, there) in
              subst (Fits (saw e totals) (e.at / 60) idx)
                (sym (bucket_at-set_other ring slot idx v apart))
                (other-Fits totals minute idx e (bucket_at fl ring idx) order apart (h.1 idx below))
        ],
      )
