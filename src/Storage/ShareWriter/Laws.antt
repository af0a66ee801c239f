-- ===== src/Storage/ShareWriter/Laws.antt =====
-- An acknowledged share stays somewhere: in the queue, the batch, the retained shares, the table or
-- the log, unless the writer counts a loss.
use icminers_stratum_v.Prelude.{
  ◌-◌, ◌≤◌, List, [], ◌∷◌, ◌++◌, Bool, true, false, ◌||◌, ◌≡◌, refl, arith, some, none, take, drop,
  Bool-cases, Option-cases, inl, inr, Option, length,
}
use icminers_stratum_v.Storage.ShareWriter.{
  share_key_eq, ShareKey, divert, divert_all, Writer, has_key, ShareRecord, key_of, retain,
  after_copy, max_retained_shares,
}
use icminers_stratum_v.Storage.ShareWriter.Rows.{has_key-append, has_key-take-drop}

module _ {F : Type 0} where
  unfoldable pub wal_has : ShareKey → Option (List (ShareRecord F)) → Bool
  wal_has k none = false
  wal_has k (some log) = has_key k log

  -- A share is somewhere.
  unfoldable pub held : ShareKey → Writer F → Bool
  unfolding wal_has
  held k w =
      has_key k w.queue
      || (has_key k w.batch || (has_key k w.pending || (has_key k w.rows || wal_has k w.wal)))

  -- No count of losses goes down, and where it does not go up a share that was somewhere still is.
  abbrev pub Keeps : ShareKey → Writer F → Writer F → Type 0
  Keeps k w v =
      (w.dropped ≤ v.dropped) × (v.dropped ≡ w.dropped → held k w ≡ true → held k v ≡ true)

  pub Keeps-trans : (k : ShareKey) (u v w : Writer F) → Keeps k u v → Keeps k v w → Keeps k u w
  Keeps-trans k u v w h g = (
    omega (arith, h, g),
    λ e there. g.1 (omega (arith, h.0, g.0, e)) (h.1 (omega (arith, h.0, g.0, e)) there),
  )

  pub divert_lem :
      (k : ShareKey) (accepts : Bool) (r : ShareRecord F) (w : Writer F)
      → Keeps k w (divert accepts r w)
        × ((divert accepts r w).dropped ≡ w.dropped
            → share_key_eq.beq (key_of r) k ≡ true
            → held k (divert accepts r w) ≡ true)
  unfolding divert held wal_has has_key
  divert_lem k accepts r w = elim (Option-cases w.wal) [
    | inl off ↦
        rw (off, divert)
          ((omega arith, λ e there. absurd (omega (arith, e))), λ e same. absurd (omega (arith, e)))
    | inr (log, on) ↦ elim (Bool-cases accepts) [
      | inr full ↦
          rw (on, divert, full)
            (
              (omega arith, λ e there. absurd (omega (arith, e))),
              λ e same. absurd (omega (arith, e)),
            )
      | inl room ↦
          rw (on, divert, room)
            (
              (omega arith, λ e there. ground (arith, there, has_key-append k log (r ∷ []))),
              λ e same. ground (arith, same, has_key-append k log (r ∷ [])),
            )
    ]
  ]

  divert_all_lem :
      (k : ShareKey) (accepts : ShareRecord F → Bool) (rs : List (ShareRecord F)) (w : Writer F)
      → Keeps k w (divert_all accepts rs w)
        × ((divert_all accepts rs w).dropped ≡ w.dropped
            → has_key k rs ≡ true
            → held k (divert_all accepts rs w) ≡ true)
  unfolding divert_all has_key
  divert_all_lem k accepts [] w = ((omega arith, λ e there. there), λ e there. absurd (cc there))
  divert_all_lem k accepts (r ∷ rs) w =
      let next = divert (accepts r) r w in
      let first = divert_lem k (accepts r) r w in
      let rest = divert_all_lem k accepts rs next in
      (
        Keeps-trans k w next _ first.0 rest.0,
        λ e there. elim (Bool-cases (share_key_eq.beq (key_of r) k)) [
          | inl same ↦
              rest.0.1 (omega (arith, first.0.0, rest.0.0, e))
                (first.1 (omega (arith, first.0.0, rest.0.0, e)) same)
          | inr other ↦ rest.1 (omega (arith, first.0.0, rest.0.0, e)) (rw other at there)
        ],
      )

  -- Shares that were taken out of the retained ones come back, or go to the log.
  pub retain_lem :
      (k : ShareKey) (accepts : ShareRecord F → Bool) (rs : List (ShareRecord F)) (w : Writer F)
      → Keeps k w (retain accepts rs w)
        × ((retain accepts rs w).dropped ≡ w.dropped
            → has_key k rs ≡ true
            → held k (retain accepts rs w) ≡ true)
  unfolding retain held
  retain_lem k accepts rs w =
      let all = w.pending ++ rs in
      let over = length all - max_retained_shares in
      let kept = record w { pending = drop over all } in
      let moved = divert_all_lem k accepts (take over all) kept in
      let parts = has_key-append k w.pending rs in
      let halves = has_key-take-drop k over all in
      (
        (
          moved.0.0,
          λ e there. elim (Bool-cases (has_key k (take over all))) [
            | inl old ↦ moved.1 e old
            | inr none_old ↦ moved.0.1 e (ground (arith, there, parts, halves, none_old))
          ],
        ),
        λ e there. elim (Bool-cases (has_key k (take over all))) [
          | inl old ↦ moved.1 e old
          | inr none_old ↦ moved.0.1 e (ground (arith, there, parts, halves, none_old))
        ],
      )

  -- What a database call makes of the shares handed to it.
  pub after_copy_lem :
      (k : ShareKey) (accepts : ShareRecord F → Bool) (rs : List (ShareRecord F))
      (done : List (ShareRecord F) × Bool) (w : Writer F)
      → (has_key k w.rows ≡ true → has_key k done.0 ≡ true)
      → (done.1 ≡ true → has_key k rs ≡ true → has_key k done.0 ≡ true)
      → Keeps k w (after_copy accepts rs done w)
        × ((after_copy accepts rs done w).dropped ≡ w.dropped
            → has_key k rs ≡ true
            → held k (after_copy accepts rs done w) ≡ true)
  unfolding after_copy held
  after_copy_lem k accepts rs (rows, true) w old new = (
    (omega arith, λ e there. ground (arith, old, there)),
    λ e there. ground (arith, new refl there),
  )
  after_copy_lem k accepts rs (rows, false) w old new =
      let kept = retain_lem k accepts rs (record w { rows = rows }) in
      ((kept.0.0, λ e there. kept.0.1 e (ground (arith, old, there))), kept.1)
