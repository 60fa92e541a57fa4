-- ===== src/Player/Stats.antt =====
-- `CLASS_ELEMENT_UINT32` of `DPSCalc/Global.h`: a statistic with its additions and its multiplier.
use dpscalclua.Base.{ℕ, Option, none, some, add32, add_int}
use dpscalclua.Double.{Double, zero_point, one_point}

pub record Stat (D : Type 0) : Type 0 where
  pub base : ℕ
  pub additional : ℕ
  pub multiplier : D

module _ {D : Type 0} ⦃d : Double D⦄ where
  unfoldable pub new_stat : Stat D
  new_stat = record { base = 0; additional = 0; multiplier = zero_point }

  -- The sum of a `uint32` and an `int32` is a `uint32`.
  unfoldable pub get_stat : Stat D → ℕ
  get_stat s =
      d.to_word (d.mul (d.of_word (add32 s.base s.additional)) (d.add one_point s.multiplier))

  unfoldable pub set_stat : Stat D → ℕ → Stat D
  set_stat s v = record s { base = v }

  -- `m_iAdditional##x += x` of two `int32`; `none` is an overflow.
  unfoldable pub add_stat : Stat D → ℕ → Option (Stat D)
  add_stat s v = elim (add_int s.additional v) [
    | none ↦ none
    | some n ↦ some (record s { additional = n })
  ]

  unfoldable pub add_stat_multiplier : Stat D → D → Stat D
  add_stat_multiplier s x = record s { multiplier = d.add s.multiplier x }
