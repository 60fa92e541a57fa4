-- ===== src/Rounds/Left.antt =====
-- A calculation of `Perform` for which the global pointers are left over from an earlier one.
use dpscalclua.Double.{Double}
use dpscalclua.Store.{World}
use dpscalclua.Calculation.{Verdict, not_loaded, out_of_fuel, result, beyond}
use dpscalclua.Steady.Takes.{Takes}

-- Nothing is said of the store.
abbrev Any : {S A : Type 0} → A → S → Type 0
Any a w = Unit {0}

-- The calculation has no result, and its loop has not come to its end.
abbrev pub IsStuck : {D L : Type 0} → Verdict D → World D L → Type 0
IsStuck not_loaded w = Unit {0}
IsStuck out_of_fuel w = Unit {0}
IsStuck (result x) w = ⊥
IsStuck beyond w = ⊥
