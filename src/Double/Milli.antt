-- ===== src/Double/Milli.antt =====
-- A concrete type of numbers for the examples: thousandths, not negative, rounded down.
use dpscalclua.Base.{ℕ, ◌+◌, ◌-◌, ◌*◌, ◌/◌, ◌%◌, ◌^◌, ltb, leb, ◌==◌, word_mod}
use dpscalclua.Double.{Double}

instance abbrev pub milli : Double ℕ
milli = record {
  lit = λ n k. n * 1000 / 10 ^ k;
  add = λ a b. a + b;
  sub = λ a b. a - b;
  mul = λ a b. a * b / 1000;
  div = λ a b. a * 1000 / b;
  less = ltb;
  less_eq = leb;
  equal = λ a b. a == b;
  of_word = λ n. n * 1000;
  float_of_word = λ n. n * 1000;
  float_div = λ a b. a * 1000 / b;
  float_lit = λ n k. n * 1000 / 10 ^ k;
  to_word = λ a. a / 1000 % word_mod;
  to_int = λ a. a / 1000 % word_mod;
}
