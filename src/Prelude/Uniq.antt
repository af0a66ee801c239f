-- ===== src/Prelude/Uniq.antt =====
-- Association lists in which a key stands once, as in a table with a unique index, and what
-- selection and ordering keep of them.
use icminers_stratum_v.Prelude.{
  [], ◌∷◌, Bool, false, if◌then◌else◌, none, some, ◌≡◌, refl, arith, filter, insert_sorted, sort_by,
  Eq, Bool-cases, inl, inr,
}
use icminers_stratum_v.Prelude.Dict.{Dict, lookup, insert, lookup-insert}

module _ {ℓ κ} {K : Type ℓ} {V : Type κ} ⦃e : Eq K⦄ where
  unfoldable pub Uniq : Dict K V → Type κ
  Uniq [] = Unit
  Uniq ((k, v) ∷ m) = (lookup k m ≡ none) × Uniq m

  -- Each row of the first list is in the second.
  unfoldable pub Covered : Dict K V → Dict K V → Type (ℓ ⊔ κ)
  Covered cs m = (j : K) (v : V) → lookup j cs ≡ some v → lookup j m ≡ some v

  pub insert-Uniq : (k : K) (v : V) (m : Dict K V) → Uniq m → Uniq (insert k v m)
  unfolding Uniq insert lookup
  insert-Uniq k v [] u = (refl, tt)
  insert-Uniq k v ((i, w) ∷ m) u = elim (Bool-cases (e.beq i k)) [
    | inl h ↦ rw h (ground (arith, u, h, e.beq_iff i k), u.1)
    | inr h ↦ rw h (
      ground (arith, u, h, e.beq_iff i k, e.beq_iff k i, lookup-insert k i v m),
      insert-Uniq k v m u.1,
    )
  ]

  lookup-filter-none :
      (p : K × V → Bool) (j : K) (m : Dict K V) → lookup j m ≡ none → lookup j (filter p m) ≡ none
  unfolding lookup
  lookup-filter-none p j [] h = refl
  lookup-filter-none p j ((i, w) ∷ m) h = ground (arith, h, lookup-filter-none p j m)

  filter-Uniq : (p : K × V → Bool) (m : Dict K V) → Uniq m → Uniq (filter p m)
  unfolding Uniq
  filter-Uniq p [] u = tt
  filter-Uniq p ((i, w) ∷ m) u = elim (Bool-cases (p (i, w))) [
    | inl h ↦ rw h (lookup-filter-none p i m u.0, filter-Uniq p m u.1)
    | inr h ↦ rw h (filter-Uniq p m u.1)
  ]

  filter-Covered : (p : K × V → Bool) (m : Dict K V) → Uniq m → Covered (filter p m) m
  unfolding Uniq Covered lookup
  filter-Covered p [] u j v h = h
  filter-Covered p ((i, w) ∷ m) u j v h =
      ground (arith, u, h, filter-Covered p m u.1 j v, lookup-filter-none p i m, e.beq_iff i j)

  lookup-insert_sorted :
      (before : K × V → K × V → Bool) (k j : K) (v : V) (m : Dict K V)
      → lookup k m ≡ none
      → lookup j (insert_sorted before (k, v) m) ≡ (if e.beq k j then some v else lookup j m)
  unfolding lookup insert_sorted
  lookup-insert_sorted before k j v [] h = refl
  lookup-insert_sorted before k j v ((i, w) ∷ m) h =
      ground
        (arith, h, lookup-insert_sorted before k j v m, e.beq_iff i k, e.beq_iff i j, e.beq_iff k j)

  absent :
      (i k : K) (w : V) (m : Dict K V)
      → lookup k ((i, w) ∷ m) ≡ none
      → (e.beq i k ≡ false) × (lookup k m ≡ none)
  unfolding lookup
  absent i k w m h = elim (Bool-cases (e.beq i k)) [
    | inl same ↦ absurd (cc (rw same at h))
    | inr other ↦ (other, rw other at h)
  ]

  insert_sorted-Uniq :
      (before : K × V → K × V → Bool) (k : K) (v : V) (m : Dict K V)
      → lookup k m ≡ none
      → Uniq m
      → Uniq (insert_sorted before (k, v) m)
  unfolding Uniq lookup insert_sorted
  insert_sorted-Uniq before k v [] h u = (refl, tt)
  insert_sorted-Uniq before k v ((i, w) ∷ m) h u = elim (Bool-cases (before (i, w) (k, v))) [
    | inr late ↦ rw late (h, u)
    | inl early ↦
        let fresh = absent i k w m h in
        rw early (
          ground
              (arith, lookup-insert_sorted before k i v m, fresh, u, e.beq_iff k i, e.beq_iff i k),
          insert_sorted-Uniq before k v m fresh.1 u.1,
        )
  ]

  lookup-sort_by :
      (before : K × V → K × V → Bool) (j : K) (m : Dict K V)
      → Uniq m
      → lookup j (sort_by before m) ≡ lookup j m
  unfolding Uniq lookup sort_by
  lookup-sort_by before j [] u = refl
  lookup-sort_by before j ((i, w) ∷ m) u = ground (
    arith,
    lookup-sort_by before j m u.1,
    lookup-sort_by before i m u.1,
    u,
    lookup-insert_sorted before i j w (sort_by before m),
  )

  pub sort_by-Uniq :
      (before : K × V → K × V → Bool) (m : Dict K V) → Uniq m → Uniq (sort_by before m)
  unfolding Uniq sort_by
  sort_by-Uniq before [] u = tt
  sort_by-Uniq before ((i, w) ∷ m) u =
      insert_sorted-Uniq before i w (sort_by before m)
        (ground (arith, lookup-sort_by before i m u.1, u)) (sort_by-Uniq before m u.1)

  -- What a selection puts in order is still unique, and still rows of the table.
  pub selection-Uniq :
      (before : K × V → K × V → Bool) (p : K × V → Bool) (m : Dict K V)
      → Uniq m
      → Uniq (sort_by before (filter p m)) × Covered (sort_by before (filter p m)) m
  unfolding Covered
  selection-Uniq before p m u =
      let v = filter-Uniq p m u in
      (
        sort_by-Uniq before (filter p m) v,
        λ j x h. filter-Covered p m u j x (cc (h, lookup-sort_by before j (filter p m) v)),
      )
