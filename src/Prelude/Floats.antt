-- ===== src/Prelude/Floats.antt =====
-- Go's float64 as an interface: the operations that the source applies, without laws. A theorem
-- that needs a law names it as a hypothesis. `trunc` is the conversion to an integer of a value
-- that is not negative; `Ratio` are fractions, an instance for tests.
use Prim.Native.Nat.{ℕ, ◌+◌, ◌-◌, ◌*◌, ◌/◌}
use mathlib.Core.Bool.{Bool}
use icminers_stratum_v.Prelude.Tests.{ltb, leb, ◌==◌}

pub record Floats : Type 1 where
  pub F : Type 0
  pub of_ℕ : ℕ → F
  pub add : F → F → F
  pub sub : F → F → F
  pub mul : F → F → F
  pub div : F → F → F
  pub lt : F → F → Bool
  pub le : F → F → Bool
  pub eq : F → F → Bool
  pub trunc : F → ℕ
  -- `big.Float` quotients: the integer part of n / f, and n / m as a float64.
  pub quo_int : ℕ → F → ℕ
  pub quo : ℕ → ℕ → F

-- A numerator over a denominator that is not 0, on fractions that are not negative.
pub record Ratio : Type 0 where
  pub num : ℕ
  pub den : ℕ

abbrev pub frac : ℕ → ℕ → Ratio
frac n d = record { num = n; den = d }

abbrev pub ratios : Floats
ratios = record {
  F = Ratio;
  of_ℕ = λ n. frac n 1;
  add = λ a b. frac (a.num * b.den + b.num * a.den) (a.den * b.den);
  sub = λ a b. frac (a.num * b.den - b.num * a.den) (a.den * b.den);
  mul = λ a b. frac (a.num * b.num) (a.den * b.den);
  div = λ a b. frac (a.num * b.den) (a.den * b.num);
  lt = λ a b. ltb (a.num * b.den) (b.num * a.den);
  le = λ a b. leb (a.num * b.den) (b.num * a.den);
  eq = λ a b. a.num * b.den == b.num * a.den;
  trunc = λ a. a.num / a.den;
  quo_int = λ n f. n * f.den / f.num;
  quo = λ n m. frac n m;
}
