-- ===== src/Reporter/Object.antt =====
-- The constructor and the destructor of `CDefaultReporter` (`DPSCalc/Reporter.cpp`).
use dpscalclua.Base.{ℕ, String, Bool, List, [], ◌++◌, some}
use dpscalclua.Double.{Double}
use dpscalclua.Store.{
  DamageInfo, InfoRow, World, M, bad_index, pure, get, modify, or_fault, when, on_option, ◌>>=◌,
  ◌>>◌,
}
use dpscalclua.Reporter.{totals, rows}
use dpscalclua.Reporter.Log.{combat_lines, blank_lines, lite_head, lite_lines}

-- The entries of `pDamageInfo` are deleted.
unfoldable pub new_reporter : {D L : Type 0} (is_save : Bool) → World D L → World D L
new_reporter is_save w = record w { reports = some []; is_save = is_save; damage_info = [] }

module _ {D L : Type 0} ⦃d : Double D⦄ (print_float : D → List ℕ) where
  -- Both files open, and what is written is put behind what they have.
  unfoldable pub write_logs : List DamageInfo → (total : ℕ) → List InfoRow → World D L → World D L
  write_logs v total table w = record w {
    combat_log = w.combat_log ++ (combat_lines v ++ blank_lines);
    lite_log =
        w.lite_log
        ++ (lite_head print_float total ++ (lite_lines print_float total table ++ blank_lines));
  }

  -- `if (pReporter) delete pReporter`; `less` is `strcmp(...) < 0`. The table may be undefined.
  unfoldable pub delete_reporter : (less : String → String → Bool) → M (World D L) (Unit {0})
  delete_reporter less = do
    w ← get
    on_option w.reports (pure tt) λ v. do
      table ← or_fault bad_index (rows (totals less v))
      modify (λ w. record w { damage_info = table })
      when w.is_save (modify (write_logs v (totals less v).total table))
