-- ===== src/Totals/Table.antt =====
-- The table that the destructor of `CDefaultReporter` makes, looked up by name.
use dpscalclua.Base.{
  ℕ, ◌+◌, ◌≡◌, refl, sym, ap, ◌∙◌, String, Bool, false, List, [], ◌∷◌, Option, none, some, inl, inr,
  arith, Bool-cases,
}
use text.Mathlib.Text.{◌==◌ as str_eq}
use text.Mathlib.TextEquality.{eq_iff}
use dpscalclua.Store.{DamageInfo, InfoRow}
use dpscalclua.Reporter.{DamageMap, Totals, amount, totals, rows_from, rows}
use dpscalclua.Totals.{rows_from_cases}
use dpscalclua.Totals.ByName.{
  IsOrder, sum_by, named, named_crit, modulo, IsAscending, IsAscending-totals, amount-totals,
}

-- One column of the table, as a map by name.
unfoldable pub column : (InfoRow → ℕ) → List InfoRow → DamageMap
column part [] = []
column part (x ∷ r) = (x.spell_name, part x) ∷ column part r

column-rows_from :
    (t : Totals) (j : ℕ) (m : DamageMap) (r : List InfoRow)
    → rows_from t j m ≡ some r
    → column (λ x. x.damage) r ≡ m
unfolding rows_from column
column-rows_from t j [] r h = ground (arith, h)
column-rows_from t j ((name, v) ∷ m) r h =
    let (x, l, e, g, lt, i, d, n, seen, crits) = rows_from_cases t j name v m r h in
    rw e (rw (n, d) (rw (column-rows_from t (j + 1) m l g) refl))

abbrev where_named : Option ℕ → Option ℕ → Option ℕ
where_named none o = none
where_named (some u) o = o

-- A column whose parts the map `c` has.
amount-column :
    (part : InfoRow → ℕ) (c : DamageMap) (t : Totals)
    → ((j : ℕ) (name : String) (v : ℕ) (m : DamageMap) (r : List InfoRow)
        → rows_from t j ((name, v) ∷ m) ≡ some r
        → (x : InfoRow) × (l : List InfoRow) × (r ≡ x ∷ l)
          × (rows_from t (j + 1) m ≡ some l)
          × (x.spell_name ≡ name)
          × (amount name c ≡ some (part x)))
    → (j : ℕ) (m : DamageMap) (r : List InfoRow) (name : String) → rows_from t j m ≡ some r
    → amount name (column part r) ≡ where_named (amount name m) (amount name c)
unfolding column rows_from amount
amount-column part c t split j [] r name h = ground (arith, h)
amount-column part c t split j ((n, v) ∷ m) r name h =
    let (x, l, e, g, same, has) = split j n v m r h in
    rw e (
      ap (λ k. amount name ((k, part x) ∷ column part l)) same ∙ elim (Bool-cases (str_eq n name)) [
        | inl f ↦ ground (arith, f, has, eq_iff n name)
        | inr f ↦ rw f (amount-column part c t split (j + 1) m l name g)
      ])

amount-counts :
    (t : Totals) (m : DamageMap) (r : List InfoRow) (name : String)
    → rows_from t 0 m ≡ some r
    → amount name (column (λ x. x.count) r) ≡ where_named (amount name m) (amount name t.count)
amount-counts t m r name h =
    amount-column (λ x. x.count) t.count t
      (λ j name v m r h.
        let (x, l, e, g, lt, i, d, n, seen, crits) = rows_from_cases t j name v m r h in
        (x, l, e, g, n, seen))
      0 m r name h

amount-crits :
    (t : Totals) (m : DamageMap) (r : List InfoRow) (name : String)
    → rows_from t 0 m ≡ some r
    → amount name (column (λ x. x.crit_count) r)
      ≡ where_named (amount name m) (amount name t.crit_count)
amount-crits t m r name h =
    amount-column (λ x. x.crit_count) t.crit_count t
      (λ j name v m r h.
        let (x, l, e, g, lt, i, d, n, seen, crits) = rows_from_cases t j name v m r h in
        (x, l, e, g, n, crits))
      0 m r name h

-- Where no report counts for the one sum, none does for a narrower one.
sum_by-none :
    (part part' : DamageInfo → ℕ) (holds narrow : DamageInfo → Bool)
    → ((i : DamageInfo) → holds i ≡ false → narrow i ≡ false)
    → (v : List DamageInfo) → modulo (sum_by part holds v) ≡ none
    → sum_by part' narrow v ≡ none
sum_by-none part part' holds narrow h [] e = refl
sum_by-none part part' holds narrow h (i ∷ v) e = elim (Bool-cases (holds i)) [
  | inl f ↦ absurd (ground (arith, f, e))
  | inr f ↦ rw (h i f) (sum_by-none part part' holds narrow h v (ground (arith, f, e)))
]

where_named-modulo :
    (o c s : Option ℕ)
    → modulo c ≡ modulo s
    → (modulo o ≡ none → s ≡ none)
    → modulo (where_named o c) ≡ modulo s
where_named-modulo none c s e h = ap modulo (sym (h refl))
where_named-modulo (some u) c s e h = e

-- When `strcmp` orders the names, a table that is defined has its names in ascending order, so none
-- twice; and for each name the row that it has tells, modulo 2 ^ 32, the damage of the reports with this
-- name, their number, and the number of crits among them. There is a row exactly if there is such a report.
pub column-rows :
    (less : String → String → Bool)
    → IsOrder less
    → (v : List DamageInfo) (r : List InfoRow) → rows (totals less v) ≡ some r
    → IsAscending less (column (λ x. x.damage) r)
      × ((name : String)
          → (modulo (amount name (column (λ x. x.damage) r))
              ≡ modulo (sum_by (λ i. i.damage) (named name) v))
            × (modulo (amount name (column (λ x. x.count) r))
                ≡ modulo (sum_by (λ i. 1) (named name) v))
            × (modulo (amount name (column (λ x. x.crit_count) r))
                ≡ modulo (sum_by (λ i. 1) (named_crit name) v)))
unfolding rows
column-rows less order v r h =
    let t = totals less v in
    let same = column-rows_from t 0 t.damage r h in
    rw same (
      (IsAscending-totals less order v).0,
      λ name.
          let (damage, count, crits) = amount-totals less order name v in
          (
            damage,
            rw (amount-counts t t.damage r name h) (
                where_named-modulo _ _ (sum_by (λ i. 1) (named name) v) count
                  λ e. sum_by-none (λ i. i.damage) _ (named name) _ (λ i f. f) v (sym damage ∙ e)),
            rw (amount-crits t t.damage r name h) (
                where_named-modulo _ _ (sum_by (λ i. 1) (named_crit name) v) crits λ e.
                  sum_by-none (λ i. i.damage) _ (named name) _ (λ i f. ground (arith, f)) v
                    (sym damage ∙ e)),
          ),
    )
