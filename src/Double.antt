-- ===== src/Double.antt =====
-- All that the program does with a `double`: decimal constants, the four operations, three
-- comparisons, and the conversions from and to 32-bit integers; and what it does with a `float`, whose values
-- are values of `double` too. The type is a parameter.
pub mod Milli
use dpscalclua.Base.{ℕ, Bool}

pub record Double (D : Type 0) : Type 0 where
  -- The constant `n / 10 ^ k`.
  pub lit : ℕ → ℕ → D
  pub add : D → D → D
  pub sub : D → D → D
  pub mul : D → D → D
  pub div : D → D → D
  pub less : D → D → Bool
  pub less_eq : D → D → Bool
  pub equal : D → D → Bool
  -- `static_cast<double>` of a `uint32`.
  pub of_word : ℕ → D
  -- `static_cast<float>` of a `uint32`, the division of two `float`s and a constant of type `float`.
  pub float_of_word : ℕ → D
  pub float_div : D → D → D
  pub float_lit : ℕ → ℕ → D
  -- The conversions to `uint32` and to `int32` (its bits).
  pub to_word : D → ℕ
  pub to_int : D → ℕ

module _ {D : Type 0} ⦃d : Double D⦄ where
  abbrev pub zero_point : D
  zero_point = d.lit 0 0

  abbrev pub one_point : D
  one_point = d.lit 1 0
