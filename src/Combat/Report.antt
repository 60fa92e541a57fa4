-- ===== src/Combat/Report.antt =====
-- `ReportDamage` of `DPSCalc/DPSCalc.cpp` with `CDefaultReporter::ReportDamage`, and the reports that
-- `AuraPeriodic` and `PostAction` make.
use dpscalclua.Base.{ℕ, String, Bool, ◌∷◌, none, some, add32, ◌==◌, if◌then◌else◌}
use dpscalclua.Double.{Double, one_point}
use dpscalclua.Event.{Additionals}
use dpscalclua.Store.{World, M, get, modify, ◌>>=◌}
use dpscalclua.Combat.Chance.{base_crit_chance}

module _ {D L : Type 0} where
  unfoldable pub report_damage : String → (damage time : ℕ) → Bool → World D L → World D L
  report_damage name damage time crit w = if damage == 0 then w else record w {
    damage_counter = add32 w.damage_counter damage;
    reports = elim w.reports [
      | none ↦ none
      | some v ↦
          some (record { spell_name = name; damage = damage; game_time = time; is_crit = crit } ∷ v)
    ];
  }

module _ {D : Type 0} ⦃d : Double D⦄ where
  open d use {add, sub, mul, of_word, to_word}

  -- The number that is reported: `damage * (1 + (bonus - 1) * chance)` when crits are normalised, else
  -- the damage, times the bonus for a crit.
  unfoldable pub reported : (normalize crit : Bool) (bonus chance : D) → ℕ → ℕ
  reported normalize crit bonus chance damage =
      if normalize
      then to_word (mul (of_word damage) (add one_point (mul (sub bonus one_point) chance)))
      else (if crit then to_word (mul (of_word damage) bonus) else damage)

  unfoldable pub report_event :
      {L : Type 0} → String → Additionals D → (damage : ℕ) → Bool → M (World D L) (Unit {0})
  unfolding reported
  report_event name x damage crit = do
    w ← get
    let n = reported w.normalize_crit crit w.player.crit_bonus (base_crit_chance w.player x) damage
    modify (report_damage name n w.system.game_time crit)
