-- ===== src/Double.antt =====
-- All that the processing hosts do with a `double`: decimal constants, conversion from an integer,
-- three operations and three comparisons. There are no floating-point numbers here, so the type and
-- its operations are a parameter of the definitions that use them.
use openmc.Common.{ℕ, ◌+◌, ◌*◌, ◌/◌, ◌^◌, ◌≡◌, Bool, true, suc, Option, some, none, ltb, leb, ◌==◌}

pub record Double (W : Type 0) : Type 0 where
  -- `lit m k` is the constant m / 10^k
  pub lit : ℕ → ℕ → W
  pub minus_one : W
  pub of_nat : ℕ → W
  pub add : W → W → W
  pub mul : W → W → W
  pub div : W → W → W
  pub le : W → W → Bool
  pub lt : W → W → Bool
  pub eq : W → W → Bool

-- What a theorem takes of IEEE comparisons: `<=` is transitive, also where a NaN stands.
pub record IsOrdered (W : Type 0) ⦃d : Double W⦄ : Type 0 where
  pub le_trans : (x y z : W) → d.le x y ≡ true → d.le y z ≡ true → d.le x z ≡ true

-- Numbers of a millionth, for runs; `none` is -1, the only negative number, and below the others.
abbrev pub Micro : Type 0
Micro = Option ℕ

abbrev pub on_numbers : (ℕ → ℕ → ℕ) → Micro → Micro → Micro
on_numbers f (some a) (some b) = some (f a b)
on_numbers f _ _ = none

abbrev pub rank : Micro → ℕ
rank none = 0
rank (some a) = suc a

instance abbrev pub micro : Double Micro
micro = record {
  lit = λ m k. some (m * 1_000_000 / 10 ^ k);
  minus_one = none;
  of_nat = λ n. some (n * 1_000_000);
  add = on_numbers (λ x y. x + y);
  mul = on_numbers (λ x y. x * y / 1_000_000);
  div = on_numbers (λ x y. x * 1_000_000 / y);
  le = λ x y. leb (rank x) (rank y);
  lt = λ x y. ltb (rank x) (rank y);
  eq = λ x y. rank x == rank y;
}
