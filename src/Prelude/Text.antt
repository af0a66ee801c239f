-- ===== src/Prelude/Text.antt =====
-- strings.TrimSpace, ToLower, HasPrefix and LastIndexByte on texts in ASCII.
use Prim.Native.Nat.{ℕ, suc, ◌+◌}
use mathlib.Core.Path.{◌≡◌, refl, ap, ◌∙◌}
use mathlib.Core.Bool.{Bool, true, false, ◌&&◌, ◌||◌}
use mathlib.Core.Option.{Option, none, some}
use mathlib.Core.List.{[], ◌∷◌, reverse, reverse-cons, reverse-reverse}
use icminers_stratum_v.Prelude.Tests.{Str, leb, ◌==◌, if◌then◌else◌}
use icminers_stratum_v.Prelude.Lists.{All, All-append}

abbrev pub is_space : ℕ → Bool
is_space b = b == 32 || (leb 9 b && leb b 13)

unfoldable pub trim_left : Str → Str
trim_left [] = []
trim_left (b ∷ s) = if is_space b then trim_left s else b ∷ s

unfoldable pub trim : Str → Str
unfolding trim_left
trim s = reverse (trim_left (reverse (trim_left s)))

abbrev pub lower : ℕ → ℕ
lower b = if leb b'A' b && leb b b'Z' then b + 32 else b

unfoldable pub to_lower : Str → Str
to_lower [] = []
to_lower (b ∷ s) = lower b ∷ to_lower s

unfoldable pub has_prefix : Str → Str → Bool
has_prefix s [] = true
has_prefix [] (p ∷ ps) = false
has_prefix (b ∷ s) (p ∷ ps) = b == p && has_prefix s ps

-- The last place of a byte, if there is one.
unfoldable pub last_index : ℕ → Str → Option ℕ
last_index c [] = none
last_index c (b ∷ s) = elim (last_index c s) [
  | some i ↦ some (suc i)
  | none ↦ if b == c then some 0 else none
]

abbrev pub Solid : ℕ → Type 0
Solid b = is_space b ≡ false

trim_left-Solid : (s : Str) → All Solid s → trim_left s ≡ s
unfolding trim_left
trim_left-Solid [] h = refl
trim_left-Solid (b ∷ s) h = rw h.0 refl

reverse-Solid : (s : Str) → All Solid s → All Solid (reverse s)
reverse-Solid [] h = tt
reverse-Solid (b ∷ s) h =
    rw (reverse-cons b s) (All-append Solid (reverse s) (b ∷ []) (reverse-Solid s h.1) (h.0, tt))

-- A text without white space is not changed.
pub trim-Solid : (s : Str) → All Solid s → trim s ≡ s
unfolding trim
trim-Solid s h =
    ap (λ t. reverse (trim_left (reverse t))) (trim_left-Solid s h)
    ∙ ap reverse (trim_left-Solid (reverse s) (reverse-Solid s h))
    ∙ reverse-reverse s
