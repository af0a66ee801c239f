-- ===== src/Coins/Scash/Laws.antt =====
-- Seeds and epochs: the text that is hashed to a seed tells the epochs apart.
use mathlib.Core.List.{append_cancel_left}
use icminers_stratum_v.Prelude.{
  ℕ, zero, suc, ◌+◌, ◌*◌, ◌-◌, ◌/◌, ◌%◌, ◌≤◌, ◌≡◌, ◌↔◌, refl, sym, ap, ◌∙◌, arith, List, [], ◌∷◌,
  ◌++◌, map, ltb, Str, true,
}
use icminers_stratum_v.Coins.Base58.{emit_digits}
use icminers_stratum_v.Coins.Scash.{
  decimal, duration_or_default, epoch_number, seed_text, epoch_seed_prefix,
}

-- The number that a text of digits stands for, after the digits that were read before.
abbrev read_decimal : ℕ → Str → ℕ
read_decimal acc [] = acc
read_decimal acc (c ∷ s) = read_decimal (acc * 10 + (c - b'0')) s

positive : (n : ℕ) → ltb 0 (suc n) ≡ true
positive n = ground arith

read_decimal-emit_digits :
    (k n : ℕ) (out : List ℕ)
    → n ≤ k
    → read_decimal 0 (map (λ d. b'0' + d) (emit_digits 10 k n out))
      ≡ read_decimal n (map (λ d. b'0' + d) out)
unfolding emit_digits
read_decimal-emit_digits zero n out h =
    ap (λ m. read_decimal m (map (λ d. b'0' + d) out)) (omega (arith, h))
read_decimal-emit_digits (suc k) zero out h = refl
read_decimal-emit_digits (suc k) (suc n) out h = rw (positive n) (
    read_decimal-emit_digits k (suc n / 10) ((suc n % 10) ∷ out) (omega (arith, h))
    ∙ ap (λ m. read_decimal m (map (λ d. b'0' + d) out)) (omega arith))

read_decimal-decimal : (n : ℕ) → read_decimal 0 (decimal n) ≡ n
unfolding decimal
read_decimal-decimal zero = refl
read_decimal-decimal (suc n) = read_decimal-emit_digits (suc n) (suc n) [] (omega arith)

decimal-injective : (m n : ℕ) → decimal m ≡ decimal n → m ≡ n
decimal-injective m n e =
    sym (read_decimal-decimal m) ∙ ap (read_decimal 0) e ∙ read_decimal-decimal n

-- Whatever length of an epoch is configured: two header times have the same seed text exactly when
-- they lie in the epoch of the same number.
seed_text-epoch_number :
    (time other duration : ℕ)
    → (seed_text time duration ≡ seed_text other duration)
      ↔ (epoch_number time duration ≡ epoch_number other duration)
unfolding seed_text epoch_number
seed_text-epoch_number time other duration = (
  λ e.
      decimal-injective (time / duration_or_default duration) (other / duration_or_default duration)
        (append_cancel_left epoch_seed_prefix _ _ e),
  λ e. ap (λ n. epoch_seed_prefix ++ decimal n) e,
)
