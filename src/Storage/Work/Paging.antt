-- ===== src/Storage/Work/Paging.antt =====
-- The paging of `WorkBackward` against one pass over the rows.
use icminers_stratum_v.Prelude.{
  ℕ, zero, suc, ◌+◌, ◌≤◌, ◌<◌, List, [], ◌∷◌, ◌++◌, Bool, true, false, not, ltb, leb, ◌&&◌, length,
  take, drop, some, filter, All, ◌≡◌, refl, arith, ap, sym, ◌∙◌, Bool-cases, inl, inr,
  take-append-drop, length-drop, length-take, lt→ltb, ltb→lt, Str, map,
}
use icminers_stratum_v.Prelude.Floats.{Floats}
use icminers_stratum_v.Storage.Work.{
  last_created, count_rows, Share, Walk, count_row, walk_back, work_backward, newest_first, no_work,
}

nil_of_length {ℓ} : {A : Type ℓ} (xs : List A) → length xs ≡ 0 → xs ≡ []
nil_of_length [] h = refl
nil_of_length (x ∷ xs) h = absurd (omega (arith, h))

take_everything {ℓ} : {A : Type ℓ} (n : ℕ) (xs : List A) → length xs ≤ n → take n xs ≡ xs
take_everything zero [] h = refl
take_everything zero (x ∷ xs) h = absurd (omega (arith, h))
take_everything (suc n) [] h = refl
take_everything (suc n) (x ∷ xs) h = rw (take_everything n xs (omega (arith, h)))

not_before : (a b : ℕ) → b ≤ a → ltb a b ≡ false
not_before a b h = ground (arith, h)

module _ {F : Type 0} where
  -- Newest first, and no two rows of the same time.
  unfoldable pub IsDescending : List (Share F) → Type 0
  IsDescending [] = Unit
  IsDescending (r ∷ rs) = All (λ q. q.created < r.created) rs × IsDescending rs

  abbrev before_time : ℕ → Share F → Bool
  before_time c r = ltb r.created c

  -- Behind a later row the cursor selects everything.
  filter-All :
      (c : ℕ) (rows : List (Share F))
      → All (λ q. q.created < c) rows
      → filter (before_time c) rows ≡ rows
  filter-All c [] h = refl
  filter-All c (r ∷ rs) h = rw (lt→ltb r.created c h.0, filter-All c rs h.1) refl

  last_created_lem :
      (n t : ℕ) (rows : List (Share F))
      → IsDescending rows
      → All (λ q. q.created < t) rows
      → last_created t (take n rows) ≤ t
  unfolding IsDescending last_created
  last_created_lem zero t rows d h = omega arith
  last_created_lem (suc n) t [] d h = omega arith
  last_created_lem (suc n) t (r ∷ rs) d h =
      omega (arith, h.0, last_created_lem n r.created rs d.1 d.0)

  -- The rows older than a page are those after it.
  filter-last_created :
      (n t : ℕ) (rows : List (Share F))
      → IsDescending rows
      → 0 < n
      → 0 < length rows
      → filter (before_time (last_created t (take n rows))) rows ≡ drop n rows
  unfolding IsDescending last_created
  filter-last_created zero t rows d pos some_rows = absurd (omega (arith, pos))
  filter-last_created (suc n) t [] d pos some_rows = absurd (omega (arith, some_rows))
  filter-last_created (suc zero) t (r ∷ rs) d pos some_rows =
      rw (not_before r.created r.created (omega arith)) (filter-All r.created rs d.0)
  filter-last_created (suc (suc n)) t (r ∷ []) d pos some_rows =
      rw (not_before r.created r.created (omega arith)) refl
  filter-last_created (suc (suc n)) t (r ∷ q ∷ rs) d pos some_rows =
      rw
        (not_before r.created (last_created r.created (take (suc n) (q ∷ rs)))
          (last_created_lem (suc n) r.created (q ∷ rs) d.1 d.0))
        (filter-last_created (suc n) r.created (q ∷ rs) d.1 (omega arith) (omega arith))

  length-filter :
      (p : Share F → Bool) (rows : List (Share F)) → length (filter p rows) ≤ length rows
  length-filter p [] = omega arith
  length-filter p (r ∷ rs) = ground (arith, length-filter p rs)

  -- A cursor that moves back selects from what was selected.
  filter-filter :
      (c d : ℕ) (rows : List (Share F))
      → c ≤ d
      → filter (before_time c) (filter (before_time d) rows) ≡ filter (before_time c) rows
  filter-filter c d [] h = refl
  filter-filter c d (r ∷ rs) h = ground (arith, h, filter-filter c d rs h)

  filter-below :
      (c d : ℕ) (rows : List (Share F))
      → All (λ q. q.created < d) rows
      → All (λ q. q.created < d) (filter (before_time c) rows)
  filter-below c d [] h = tt
  filter-below c d (r ∷ rs) h = elim (Bool-cases (ltb r.created c)) [
    | inl e ↦ rw e (h.0, filter-below c d rs h.1)
    | inr e ↦ rw e (filter-below c d rs h.1)
  ]

  filter-IsDescending :
      (c : ℕ) (rows : List (Share F))
      → IsDescending rows
      → IsDescending (filter (before_time c) rows)
  unfolding IsDescending
  filter-IsDescending c [] d = tt
  filter-IsDescending c (r ∷ rs) d = elim (Bool-cases (ltb r.created c)) [
    | inl e ↦ rw e (filter-below c r.created rs d.0, filter-IsDescending c rs d.1)
    | inr e ↦ rw e (filter-IsDescending c rs d.1)
  ]

  filter-before :
      (c : ℕ) (rows : List (Share F)) → All (λ q. q.created < c) (filter (before_time c) rows)
  filter-before c [] = tt
  filter-before c (r ∷ rs) = elim (Bool-cases (ltb r.created c)) [
    | inl e ↦ rw e (ltb→lt r.created c e, filter-before c rs)
    | inr e ↦ rw e (filter-before c rs)
  ]

  -- The first query's cursor is inclusive.
  filter-leb :
      (c : ℕ) (rows : List (Share F))
      → filter (λ r. leb r.created c) rows ≡ filter (before_time (c + 1)) rows
  filter-leb c [] = refl
  filter-leb c (r ∷ rs) = ground (arith, filter-leb c rs)

  same_last :
      (n t u : ℕ) (rows : List (Share F))
      → 0 < n
      → 0 < length rows
      → last_created t (take n rows) ≡ last_created u (take n rows)
  unfolding last_created
  same_last zero t u rows pos some_rows = absurd (omega (arith, pos))
  same_last (suc n) t u [] pos some_rows = absurd (omega (arith, some_rows))
  same_last (suc n) t u (r ∷ rs) pos some_rows = refl

  -- A page ends where the rest begins.
  rest_of_page :
      (limit c : ℕ) (rows : List (Share F))
      → IsDescending rows
      → 0 < limit
      → 0 < length (filter (before_time c) rows)
      → filter (before_time (last_created 0 (take limit (filter (before_time c) rows)))) rows
        ≡ drop limit (filter (before_time c) rows)
  rest_of_page limit c rows d pos some_rows =
      let left = filter (before_time c) rows in
      let down = filter-IsDescending c rows d in
      let here = same_last limit 0 c left pos some_rows in
      sym (
        filter-filter (last_created 0 (take limit left)) c rows
          (omega (arith, here, last_created_lem limit c left down (filter-before c rows))))
      ∙ filter-last_created limit 0 left down pos some_rows

  empty_page :
      (limit : ℕ) (left : List (Share F))
      → 0 < limit
      → leb (length (take limit left)) 0 ≡ true
      → length left ≡ 0
  empty_page limit left pos h = ground (arith, pos, h, length-take limit left)

  some_left :
      (limit : ℕ) (left : List (Share F))
      → leb (length (take limit left)) 0 ≡ false
      → 0 < length left
  some_left limit left h = ground (arith, h, length-take limit left)

  whole_page :
      (limit : ℕ) (left : List (Share F)) (b : Bool)
      → (ltb (length (take limit left)) limit && b) ≡ true
      → length left ≤ limit
  whole_page limit left b h = ground (arith, h, length-take limit left)

  rest_short :
      (limit : ℕ) (left : List (Share F)) (fuel : ℕ) {n : ℕ}
      → 0 < limit
      → leb (length (take limit left)) 0 ≡ false
      → length left < suc fuel
      → n ≡ length (drop limit left)
      → n < fuel
  rest_short limit left fuel pos more short e =
      omega (arith, pos, short, e, length-drop limit left, some_left limit left more)

module _ (fl : Floats) where
  open fl use {F, of_ℕ, add, lt, le}

  count_rows-append :
      (target : F) (w : Walk F) (xs ys : List (Share F))
      → count_rows fl target w (xs ++ ys) ≡ count_rows fl target (count_rows fl target w xs) ys
  unfolding count_rows
  count_rows-append target w [] ys = refl
  count_rows-append target w (x ∷ xs) ys = count_rows-append target (count_row fl target w x) xs ys

  count_rows-reached :
      (target : F) (w : Walk F) (xs : List (Share F))
      → le target w.collected ≡ true
      → count_rows fl target w xs ≡ w
  unfolding count_rows
  count_rows-reached target w [] h = refl
  count_rows-reached target w (x ∷ xs) h = rw h (count_rows-reached target w xs h)

  module _ (total_law : (x y : F) → le y x ≡ not (lt x y)) (target : F) (limit : ℕ)
      (rows : List (Share F)) where
    -- The pages count what one pass over the rows that are left counts.
    walk_back-count_rows :
        (fuel : ℕ) (older : Share F → Bool) (c : ℕ) (w : Walk F)
        → IsDescending rows
        → 0 < limit
        → filter older rows ≡ filter (before_time c) rows
        → length (filter (before_time c) rows) < fuel
        → walk_back fl fuel limit target rows older w
          ≡ some (count_rows fl target w (filter (before_time c) rows))
    unfolding walk_back count_rows
    walk_back-count_rows zero older c w d pos same short = absurd (omega (arith, short))
    walk_back-count_rows (suc fuel) older c w d pos same short =
        let left = filter (before_time c) rows in
        let page = take limit left in
        let counted = count_rows fl target w page in
        let last = last_created 0 page in
        elim (Bool-cases (lt w.collected target)) [
          | inr reached ↦
              rw (same, reached)
                (ap some (
                  sym (
                    count_rows-reached target w left
                      (total_law w.collected target ∙ ap not reached))))
          | inl under ↦ elim (Bool-cases (leb (length page) 0)) [
            | inl empty ↦
                rw (same, under, empty)
                  (ap some (
                    ap (count_rows fl target w)
                      (sym (nil_of_length left (empty_page limit left pos empty)))))
            | inr more ↦
                elim (Bool-cases (ltb (length page) limit && lt counted.collected target)) [
                  | inl short_page ↦
                      rw (same, under, more, short_page)
                        (ap some (
                          ap (count_rows fl target w)
                            (take_everything limit left (whole_page limit left _ short_page))))
                  | inr go_on ↦
                      let rest = rest_of_page limit c rows d pos (some_left limit left more) in
                      rw (same, under, more, go_on)
                        (walk_back-count_rows fuel (before_time last) last counted d pos refl
                            (rest_short limit left fuel pos more short (ap length rest))
                          ∙ ap some (
                              ap (count_rows fl target counted) rest
                              ∙ sym (count_rows-append target w page (drop limit left))
                              ∙ ap (count_rows fl target w) (take-append-drop limit left)))
                ]
          ]
        ]

  -- With distinct times, a page size that is not 0 and floats of which always one is below the other
  -- or not, the work of the paged walk, within its fuel, is that of one pass over the pool's shares
  -- from the newest one that is not later than the time, until the target is reached.
  pub work_backward-count_rows :
      (limit : ℕ) (pool : Str) (shares : List (Share F)) (before : ℕ) (target : F)
      → ((x y : F) → le y x ≡ not (lt x y))
      → 0 < limit
      → IsDescending (newest_first pool shares)
      → work_backward fl limit pool shares before target
        ≡ some (
            map
              (λ p. record { miner = p.0; diff_sum = p.1 })
              (count_rows fl target
                (no_work fl)
                (filter (λ r. leb r.created before) (newest_first pool shares))).sums)
  unfolding work_backward
  work_backward-count_rows limit pool shares before target law pos d =
      let rows = newest_first pool shares in
      let walked =
        walk_back-count_rows law target limit rows (length rows + 1) (λ r. leb r.created before)
          (before + 1) (no_work fl) d pos (filter-leb before rows)
          (omega (arith, length-filter (before_time (before + 1)) rows)) in
      rw (walked, work_backward, filter-leb before rows) refl
