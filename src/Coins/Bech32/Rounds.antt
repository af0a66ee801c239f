-- ===== src/Coins/Bech32/Rounds.antt =====
-- `convertBits` between bytes and groups of five bits, one round at a time: what a round appends and
-- what it leaves, in each place of the cycle that the left-over bits go through.
use icminers_stratum_v.Prelude.{
  ℕ, ◌+◌, ◌*◌, ◌/◌, ◌%◌, ◌<◌, ◌≡◌, refl, ap, ◌∙◌, arith, [], ◌∷◌, ◌++◌, true, false, ◌^◌, not,
  Result, ok, err, if◌then◌else◌, sym, ◌==◌, append_assoc,
}
use icminers_stratum_v.Coins.Bech32.{prepend, convert_from, Bech32Error, emit_groups}
use icminers_stratum_v.Coins.Bytes.{Bytes}

abbrev pub Out : Type 0
Out = Result Bech32Error Bytes

-- From bytes to groups, and back.
abbrev pub cut : ℕ → ℕ → Bytes → Out
cut acc bits bs = convert_from 8 5 true acc bits bs

abbrev pub join : ℕ → ℕ → Bytes → Out
join acc bits gs = convert_from 5 8 false acc bits gs

-- The word after a byte and after a group.
abbrev pub after_byte : ℕ → ℕ → ℕ
after_byte acc b = (acc * 2 ^ 8 + b) % 2 ^ 64

abbrev pub after_group : ℕ → ℕ → ℕ
after_group acc g = (acc * 2 ^ 5 + g) % 2 ^ 64

-- The group or the byte that ends k bits from the right.
abbrev pub group_at : ℕ → ℕ → ℕ
group_at acc k = acc / 2 ^ k % 2 ^ 5 % 256

abbrev pub byte_at : ℕ → ℕ → ℕ
byte_at acc k = acc / 2 ^ k % 2 ^ 8 % 256

prepend-prepend : (xs ys : Bytes) (r : Out) → prepend xs (prepend ys r) ≡ prepend (xs ++ ys) r
prepend-prepend xs ys (ok zs) = ap ok (sym (append_assoc xs ys zs))
prepend-prepend xs ys (err e) = refl

cut_ok : (b : ℕ) (x y : Out) → b < 256 → (if not (b / 2 ^ 8 == 0) then x else y) ≡ y
cut_ok b x y h = let t : (b / 2 ^ 8 == 0) ≡ true = ground (arith, h) in rw t refl

join_ok : (g : ℕ) (x y : Out) → g < 32 → (if not (g / 2 ^ 5 == 0) then x else y) ≡ y
join_ok g x y h = let t : (g / 2 ^ 5 == 0) ≡ true = ground (arith, h) in rw t refl

prepend-nil : (r : Out) → prepend [] r ≡ r
prepend-nil (ok zs) = refl
prepend-nil (err e) = refl

-- One round in each place of the cycle that the bits left over go through.
pub cut_0 :
    (a b : ℕ) (bs : Bytes)
    → b < 256
    → cut a 0 (b ∷ bs) ≡ prepend (group_at (after_byte a b) 3 ∷ []) (cut (after_byte a b) 3 bs)
unfolding convert_from emit_groups
cut_0 a b bs h = cut_ok b _ _ h

pub cut_3 :
    (a b : ℕ) (bs : Bytes)
    → b < 256
    → cut a 3 (b ∷ bs)
      ≡ prepend
          (group_at (after_byte a b) 6 ∷ group_at (after_byte a b) 1 ∷ [])
          (cut (after_byte a b) 1 bs)
unfolding convert_from emit_groups
cut_3 a b bs h = cut_ok b _ _ h

pub cut_1 :
    (a b : ℕ) (bs : Bytes)
    → b < 256
    → cut a 1 (b ∷ bs) ≡ prepend (group_at (after_byte a b) 4 ∷ []) (cut (after_byte a b) 4 bs)
unfolding convert_from emit_groups
cut_1 a b bs h = cut_ok b _ _ h

pub cut_4 :
    (a b : ℕ) (bs : Bytes)
    → b < 256
    → cut a 4 (b ∷ bs)
      ≡ prepend
          (group_at (after_byte a b) 7 ∷ group_at (after_byte a b) 2 ∷ [])
          (cut (after_byte a b) 2 bs)
unfolding convert_from emit_groups
cut_4 a b bs h = cut_ok b _ _ h

pub cut_2 :
    (a b : ℕ) (bs : Bytes)
    → b < 256
    → cut a 2 (b ∷ bs)
      ≡ prepend
          (group_at (after_byte a b) 5 ∷ group_at (after_byte a b) 0 ∷ [])
          (cut (after_byte a b) 0 bs)
unfolding convert_from emit_groups
cut_2 a b bs h = cut_ok b _ _ h

pub join_0 : (c g : ℕ) (gs : Bytes) → g < 32 → join c 0 (g ∷ gs) ≡ join (after_group c g) 5 gs
unfolding convert_from emit_groups
join_0 c g gs h = join_ok g _ _ h ∙ prepend-nil (join (after_group c g) 5 gs)

pub join_5 :
    (c g : ℕ) (gs : Bytes)
    → g < 32
    → join c 5 (g ∷ gs) ≡ prepend (byte_at (after_group c g) 2 ∷ []) (join (after_group c g) 2 gs)
unfolding convert_from emit_groups
join_5 c g gs h = join_ok g _ _ h

pub join_2 : (c g : ℕ) (gs : Bytes) → g < 32 → join c 2 (g ∷ gs) ≡ join (after_group c g) 7 gs
unfolding convert_from emit_groups
join_2 c g gs h = join_ok g _ _ h ∙ prepend-nil (join (after_group c g) 7 gs)

pub join_7 :
    (c g : ℕ) (gs : Bytes)
    → g < 32
    → join c 7 (g ∷ gs) ≡ prepend (byte_at (after_group c g) 4 ∷ []) (join (after_group c g) 4 gs)
unfolding convert_from emit_groups
join_7 c g gs h = join_ok g _ _ h

pub join_4 :
    (c g : ℕ) (gs : Bytes)
    → g < 32
    → join c 4 (g ∷ gs) ≡ prepend (byte_at (after_group c g) 1 ∷ []) (join (after_group c g) 1 gs)
unfolding convert_from emit_groups
join_4 c g gs h = join_ok g _ _ h

pub join_1 : (c g : ℕ) (gs : Bytes) → g < 32 → join c 1 (g ∷ gs) ≡ join (after_group c g) 6 gs
unfolding convert_from emit_groups
join_1 c g gs h = join_ok g _ _ h ∙ prepend-nil (join (after_group c g) 6 gs)

pub join_6 :
    (c g : ℕ) (gs : Bytes)
    → g < 32
    → join c 6 (g ∷ gs) ≡ prepend (byte_at (after_group c g) 3 ∷ []) (join (after_group c g) 3 gs)
unfolding convert_from emit_groups
join_6 c g gs h = join_ok g _ _ h

pub join_3 :
    (c g : ℕ) (gs : Bytes)
    → g < 32
    → join c 3 (g ∷ gs) ≡ prepend (byte_at (after_group c g) 0 ∷ []) (join (after_group c g) 0 gs)
unfolding convert_from emit_groups
join_3 c g gs h = join_ok g _ _ h
