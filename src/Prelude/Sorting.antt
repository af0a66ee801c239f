-- ===== src/Prelude/Sorting.antt =====
-- `sort.Slice` and SQL's ORDER BY as insertion sort by a comparison, and selections by a test.
use Prim.Native.Nat.{ℕ, ◌+◌}
use mathlib.Core.Path.{◌≡◌, refl}
use mathlib.Core.Bool.{Bool, true, false, ◌||◌}
use mathlib.Core.List.{List, [], ◌∷◌, map}
use native.Mathlib.Omega.{arith}
use icminers_stratum_v.Prelude.Tests.{ltb, ◌==◌, if◌then◌else◌, Str}
use icminers_stratum_v.Prelude.Lists.{sum, length}

module _ {ℓ} {A : Type ℓ} where
  -- The elements that pass a test, under the library's name.
  abbrev pub filter : (A → Bool) → List A → List A
  filter p [] = []
  filter p (x ∷ xs) = if p x then x ∷ filter p xs else filter p xs

  abbrev pub any : (A → Bool) → List A → Bool
  any p [] = false
  any p (x ∷ xs) = p x || any p xs

  unfoldable pub insert_sorted : (A → A → Bool) → A → List A → List A
  insert_sorted before x [] = x ∷ []
  insert_sorted before x (y ∷ ys) = if before y x then y ∷ insert_sorted before x ys else x ∷ y ∷ ys

  unfoldable pub sort_by : (A → A → Bool) → List A → List A
  unfolding insert_sorted
  sort_by before [] = []
  sort_by before (x ∷ xs) = insert_sorted before x (sort_by before xs)

  pub sum-insert_sorted :
      (f : A → ℕ) (before : A → A → Bool) (x : A) (xs : List A)
      → sum (map f (insert_sorted before x xs)) ≡ f x + sum (map f xs)
  unfolding insert_sorted
  sum-insert_sorted f before x [] = refl
  sum-insert_sorted f before x (y ∷ ys) = ground (arith, sum-insert_sorted f before x ys)

  -- Sorting keeps every sum over the elements.
  pub sum-sort_by :
      (f : A → ℕ) (before : A → A → Bool) (xs : List A)
      → sum (map f (sort_by before xs)) ≡ sum (map f xs)
  unfolding sort_by
  sum-sort_by f before [] = refl
  sum-sort_by f before (x ∷ xs) =
      omega (arith, sum-insert_sorted f before x (sort_by before xs), sum-sort_by f before xs)

  pub length-insert_sorted :
      (before : A → A → Bool) (x : A) (xs : List A)
      → length (insert_sorted before x xs) ≡ length xs + 1
  unfolding insert_sorted
  length-insert_sorted before x [] = omega arith
  length-insert_sorted before x (y ∷ ys) = ground (arith, length-insert_sorted before x ys)

  pub length-sort_by :
      (before : A → A → Bool) (xs : List A) → length (sort_by before xs) ≡ length xs
  unfolding sort_by
  length-sort_by before [] = refl
  length-sort_by before (x ∷ xs) =
      omega (arith, length-insert_sorted before x (sort_by before xs), length-sort_by before xs)

-- Go's `<` on strings: byte by byte.
unfoldable pub str_lt : Str → Str → Bool
str_lt s [] = false
str_lt [] (y ∷ t) = true
str_lt (x ∷ s) (y ∷ t) = if x == y then str_lt s t else ltb x y
