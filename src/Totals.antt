-- ===== src/Totals.antt =====
-- The sums of `CDefaultReporter` and the table that `GetDamageInfo` gives out.
pub mod ByName
pub mod Table
pub mod Calls
use dpscalclua.Base.{
  ℕ, zero, suc, ◌+◌, ◌%◌, ◌<◌, ◌≡◌, refl, subst, String, Bool, true, false, List, [], ◌∷◌, none,
  some, inl, inr, arith, word_mod, length, get_elem?, if◌then◌else◌, Option-cases,
}
use dpscalclua.Store.{World, DamageInfo, InfoRow}
use dpscalclua.Combat.Report.{report_damage}
use dpscalclua.Reporter.{
  DamageMap, amount, Totals, no_totals, add_amount, add_info, totals, rows_from, rows, info_found,
  get_damage_info,
}

abbrev pub sum_of : DamageMap → ℕ
sum_of [] = 0
sum_of ((name, v) ∷ m) = v + sum_of m

abbrev pub damage_of : List DamageInfo → ℕ
damage_of [] = 0
damage_of (i ∷ v) = i.damage + damage_of v

abbrev pub crits_of : List DamageInfo → ℕ
crits_of [] = 0
crits_of (i ∷ v) = (if i.is_crit then 1 else 0) + crits_of v

sum_of-add_amount :
    (less : String → String → Bool) (name : String) (v : ℕ) (m : DamageMap)
    → sum_of (add_amount less name v m) % word_mod ≡ (sum_of m + v) % word_mod
unfolding add_amount
sum_of-add_amount less name v [] = omega arith
sum_of-add_amount less name v ((n, u) ∷ m) = ground (arith, sum_of-add_amount less name v m)

-- Whatever the order of the names: the total is the sum of the damage of all reports, and so is the sum
-- over the spells; the counts of the spells add up to the number of reports, and those of their crits to
-- the number of crits (all modulo 2 ^ 32).
pub totals_lem :
    (less : String → String → Bool) (v : List DamageInfo)
    → ((totals less v).total ≡ damage_of v % word_mod)
      × (sum_of (totals less v).damage % word_mod ≡ damage_of v % word_mod)
      × (sum_of (totals less v).count % word_mod ≡ length v % word_mod)
      × (sum_of (totals less v).crit_count % word_mod ≡ crits_of v % word_mod)
unfolding totals add_info no_totals
totals_lem less [] = (refl, refl, refl, refl)
totals_lem less (i ∷ v) =
    let t = totals less v in
    ground (
      arith,
      totals_lem less v,
      sum_of-add_amount less i.spell_name i.damage t.damage,
      sum_of-add_amount less i.spell_name 1 t.count,
      sum_of-add_amount less i.spell_name 1 t.crit_count,
    )

abbrev pub row_damage : List InfoRow → ℕ
row_damage [] = 0
row_damage (r ∷ l) = r.damage + row_damage l

pub rows_from_cases :
    (t : Totals) (j : ℕ) (name : String) (v : ℕ) (m : DamageMap) (r : List InfoRow)
    → rows_from t j ((name, v) ∷ m) ≡ some r
    → (x : InfoRow) × (l : List InfoRow) × (r ≡ x ∷ l)
      × (rows_from t (j + 1) m ≡ some l)
      × (j < 100)
      × (x.index ≡ j)
      × (x.damage ≡ v)
      × (x.spell_name ≡ name)
      × (amount name t.count ≡ some x.count)
      × (amount name t.crit_count ≡ some x.crit_count)
unfolding rows_from
rows_from_cases t j name v m r h = elim (Option-cases (amount name t.count)) [
  | inl e ↦ absurd (ground (arith, e))
  | inr (n, e) ↦ elim (Option-cases (amount name t.crit_count)) [
    | inl f ↦ absurd (ground (arith, e, f))
    | inr (c, f) ↦ elim (Option-cases (rows_from t (j + 1) m)) [
      | inl g ↦ absurd (ground (arith, e, f, g))
      | inr (l, g) ↦ (
        record { index = j; damage = v; count = n; crit_count = c; spell_name = name },
        l,
        ground (arith, e, f, g),
        g,
        ground (arith, e, f, g),
        refl,
        refl,
        refl,
        e,
        f,
      )
    ]
  ]
]

rows_from_lem :
    (t : Totals) (j : ℕ) (m : DamageMap) (r : List InfoRow)
    → rows_from t j m ≡ some r
    → row_damage r ≡ sum_of m
unfolding rows_from
rows_from_lem t j [] r h = ground (arith, h)
rows_from_lem t j ((name, v) ∷ m) r h =
    let (x, l, e, g, lt, i, d, n, seen, crits) = rows_from_cases t j name v m r h in
    rw e (omega (arith, rows_from_lem t (j + 1) m l g, d))

-- The table that the destructor makes, where it is defined, has the damage of all reports in sum.
pub row_damage-rows :
    (less : String → String → Bool) (v : List DamageInfo) (r : List InfoRow)
    → rows (totals less v) ≡ some r
    → row_damage r % word_mod ≡ damage_of v % word_mod
unfolding rows
row_damage-rows less v r h =
    let t = totals less v in ground (arith, rows_from_lem t 0 t.damage r h, totals_lem less v)

-- The counter of the damage is the sum of the reports.
abbrev pub IsAccounted : {D L : Type 0} → World D L → Type 0
IsAccounted w =
    (v : List DamageInfo) → w.reports ≡ some v → w.damage_counter ≡ damage_of v % word_mod

-- Whether there is a reporter.
abbrev pub has_reports : {D L : Type 0} → World D L → Bool
has_reports w = elim w.reports [ none ↦ false | some v ↦ true ]

-- `ReportDamage` keeps the damage counter equal to the sum of the reports, modulo 2 ^ 32.
pub report_damage-IsAccounted :
    {D L : Type 0} (name : String) (damage time : ℕ) (crit : Bool) (w : World D L)
    → IsAccounted w
    → IsAccounted (report_damage name damage time crit w)
unfolding report_damage
report_damage-IsAccounted name damage time crit w h v e = elim (Option-cases w.reports) [
  | inl g ↦ ground (arith, h v, g)
  | inr (u, g) ↦ ground (arith, h v, h u g, g)
]
