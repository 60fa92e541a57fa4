-- ===== src/Steady/Written.antt =====
-- What the destructor of the reporter (`DPSCalc/Reporter.cpp`) writes, against the damage counter.
use dpscalclua.Base.{
  ℕ, ◌%◌, ◌≡◌, refl, sym, ap, ◌∙◌, String, Bool, true, false, List, ◌++◌, Option, none, some,
  word_mod,
}
use dpscalclua.Double.{Double}
use dpscalclua.Store.{DamageInfo, InfoRow}
use dpscalclua.Reporter.{totals, rows}
use dpscalclua.Reporter.Log.{combat_lines, blank_lines, lite_head, lite_lines}
use dpscalclua.Totals.{damage_of, totals_lem, row_damage, row_damage-rows}
use dpscalclua.Steady.Rules.{Output}

module _ {D : Type 0} ⦃d : Double D⦄ (less : String → String → Bool)
    (print_float : D → List ℕ) where
  abbrev text : List DamageInfo → List InfoRow → List ℕ
  text v table =
      lite_head print_float (totals less v).total
      ++ (lite_lines print_float (totals less v).total table ++ blank_lines)

  -- The output with this table, and with what the destructor writes for these reports if it saves.
  abbrev pub with_reports : (save : Bool) → List DamageInfo → Output → List InfoRow → Output
  with_reports true v old table = record old {
    table = table;
    combat = old.combat ++ (combat_lines v ++ blank_lines);
    lite = old.lite ++ text v table;
  }
  with_reports false v old table = record old { table = table }

  -- The output after the destructor, for what the reporter holds.
  abbrev pub LeftBy : Option (List DamageInfo) → (before after : Output) → Type 0
  LeftBy none before after = after ≡ before
  LeftBy (some v) before after =
      (rows (totals less v) ≡ some after.table)
      × (after ≡ with_reports before.save v before after.table)

  -- What is written to the two files agrees with the counter.
  abbrev pub Logged : (save : Bool) (old new : Output) (counter : ℕ) → Type 0
  Logged true old new counter =
      (v : List DamageInfo) × (counter ≡ damage_of v % word_mod)
      × (new.combat ≡ old.combat ++ (combat_lines v ++ blank_lines))
      × (new.lite
          ≡ old.lite
            ++ (lite_head print_float counter
                ++ (lite_lines print_float counter new.table ++ blank_lines)))
  Logged false old new counter = (new.combat ≡ old.combat) × (new.lite ≡ old.lite)

  -- With a reporter the table and the files agree with the counter, without one all is as before.
  abbrev pub Agrees : (detail : Bool) (old new : Output) (counter : ℕ) → Type 0
  Agrees true old new counter =
      (counter ≡ row_damage new.table % word_mod) × Logged old.save old new counter
  Agrees false old new counter = new ≡ old

  Logged-with_reports :
      (save : Bool) (v : List DamageInfo) (old new : Output) (counter : ℕ)
      → counter ≡ damage_of v % word_mod
      → new ≡ with_reports save v old new.table
      → Logged save old new counter
  Logged-with_reports true v old new counter c e = (
    v,
    c,
    ap (λ y. y.combat) e,
    ap (λ y. y.lite) e
        ∙ ap
            (λ n.
              old.lite
              ++ (lite_head print_float n ++ (lite_lines print_float n new.table ++ blank_lines)))
            ((totals_lem less v).0 ∙ sym c),
  )
  Logged-with_reports false v old new counter c e = (ap (λ y. y.combat) e, ap (λ y. y.lite) e)

  pub Agrees-LeftBy :
      (detail : Bool) (o : Option (List DamageInfo)) (old new : Output) (counter : ℕ)
      → (elim o as (λ o. Bool) [ none ↦ false | some v ↦ true ]) ≡ detail
      → LeftBy o old new
      → ((v : List DamageInfo) → o ≡ some v → counter ≡ damage_of v % word_mod)
      → Agrees detail old new counter
  Agrees-LeftBy true none old new counter h t c = absurd (cc h)
  Agrees-LeftBy false none old new counter h t c = t
  Agrees-LeftBy true (some v) old new counter h (t, e) c = (
    c v refl ∙ sym (row_damage-rows less v new.table t),
    Logged-with_reports old.save v old new counter (c v refl) e,
  )
  Agrees-LeftBy false (some v) old new counter h t c = absurd (cc h)
