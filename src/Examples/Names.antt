-- ===== src/Examples/Names.antt =====
-- The sums by name, with the order of the code points for `strcmp`, and the log of the reports.
use Prim.Native.Char.{Char, code}
use text.Mathlib.TextEquality.{codes_equal}
use dpscalclua.Base.{
  ℕ, ◌≡◌, ◌≢◌, refl, inl, inr, String, Bool, true, false, ◌&&◌, ◌||◌, [], ◌∷◌, ◌++◌, some, arith,
  ltb, ◌==◌, Bool-cases, codes, List,
}
use mathlib.Core.Path.{ap₂}
use dpscalclua.Store.{DamageInfo, InfoRow}
use dpscalclua.Reporter.{amount, totals, rows, rows_from, add_info, add_amount, no_totals}
use dpscalclua.Reporter.Log.{combat_lines}
use dpscalclua.Reporter.ReadBack.{entry, told, read_log, read_log-combat_lines}
use dpscalclua.Totals.ByName.{
  IsOrder, modulo, sum_by, named, named_crit, IsAscending, amount-totals,
}
use dpscalclua.Totals.Table.{column, column-rows}

before : String → String → Bool
before String.[] String.[] = false
before String.[] (String.◌∷◌ d t) = true
before (String.◌∷◌ c s) String.[] = false
before (String.◌∷◌ c s) (String.◌∷◌ d t) =
    let rest = before s t in ltb (code c) (code d) || ((code c == code d) && rest)

before-irreflexive : (a : String) → before a a ≡ false
unfolding before
before-irreflexive String.[] = refl
before-irreflexive (String.◌∷◌ c s) = ground (arith, before-irreflexive s)

before-transitive : (a b c : String) → before a b ≡ true → before b c ≡ true → before a c ≡ true
unfolding before
before-transitive String.[] String.[] c h g = absurd (cc h)
before-transitive String.[] (String.◌∷◌ y b) String.[] h g = absurd (cc g)
before-transitive String.[] (String.◌∷◌ y b) (String.◌∷◌ z c) h g = refl
before-transitive (String.◌∷◌ x a) String.[] c h g = absurd (cc h)
before-transitive (String.◌∷◌ x a) (String.◌∷◌ y b) String.[] h g = absurd (cc g)
before-transitive (String.◌∷◌ x a) (String.◌∷◌ y b) (String.◌∷◌ z c) h g =
    ground (arith, before-transitive a b c)

tails_differ :
    (c d : Char) (s t : String)
    → (code c == code d) ≡ true
    → String.◌∷◌ c s ≢ String.◌∷◌ d t
    → s ≢ t
tails_differ c d s t e ne p = ne (ap₂ String.◌∷◌ (codes_equal c d (ground arith)) p)

before-connected : (a b : String) → a ≢ b → before a b ≡ false → before b a ≡ true
unfolding before
before-connected String.[] String.[] ne h = absurd (ne refl)
before-connected String.[] (String.◌∷◌ d t) ne h = absurd (cc h)
before-connected (String.◌∷◌ c s) String.[] ne h = refl
before-connected (String.◌∷◌ c s) (String.◌∷◌ d t) ne h = elim (Bool-cases (code c == code d)) [
  | inl e ↦
      let rest = before-connected s t (tails_differ c d s t e ne) (ground arith) in
      ground (arith, rest)
  | inr e ↦ ground arith
]

before-IsOrder : IsOrder before
before-IsOrder = record {
  irreflexive = before-irreflexive;
  transitive = before-transitive;
  connected = before-connected;
}

abbrev hit : String → ℕ → Bool → DamageInfo
hit name damage crit = record { spell_name = name; damage = damage; game_time = 0; is_crit = crit }

amount-totals_example :
    (modulo (
        amount "b" (totals before (hit "b" 3 true ∷ hit "a" 5 false ∷ hit "b" 4 false ∷ [])).damage)
      ≡ some 7)
    × (modulo (
          amount "b"
            (totals before (hit "b" 3 true ∷ hit "a" 5 false ∷ hit "b" 4 false ∷ [])).count)
        ≡ some 2)
    × (modulo (
          amount "b"
            (totals before (hit "b" 3 true ∷ hit "a" 5 false ∷ hit "b" 4 false ∷ [])).crit_count)
        ≡ some 1)
amount-totals_example =
    amount-totals before before-IsOrder "b"
      (hit "b" 3 true ∷ hit "a" 5 false ∷ hit "b" 4 false ∷ [])

abbrev reports : List DamageInfo
reports = hit "Bolt" 1250 true ∷ hit "Arc" 7 false ∷ []

read_log-combat_lines_example :
    read_log 2 (combat_lines reports ++ codes "\n\n\n")
    ≡ (entry (hit "Arc" 7 false) ∷ entry (hit "Bolt" 1250 true) ∷ [], codes "\n\n\n")
unfolding told
read_log-combat_lines_example = read_log-combat_lines reports (codes "\n\n\n") (
  record {
    time_fits = omega arith;
    damage_fits = omega arith;
    lacks = (refl, (refl, (refl, (refl, tt))));
  },
  (
    record {
      time_fits = omega arith;
      damage_fits = omega arith;
      lacks = (refl, (refl, (refl, tt)));
    },
    tt,
  ),
)

-- One spell has hits and crits, the other one crit.
abbrev fight : List DamageInfo
fight = hit "Bolt" 30 true ∷ hit "Arc" 5 true ∷ hit "Bolt" 12 false ∷ []

abbrev fight_table : List InfoRow
fight_table =
    record { index = 0; damage = 5; count = 1; crit_count = 1; spell_name = "Arc" }
    ∷ record { index = 1; damage = 42; count = 2; crit_count = 1; spell_name = "Bolt" }
    ∷ []

column-rows_example :
    IsAscending before (column (λ x. x.damage) fight_table)
    × ((name : String)
        → (modulo (amount name (column (λ x. x.damage) fight_table))
            ≡ modulo (sum_by (λ i. i.damage) (named name) fight))
          × (modulo (amount name (column (λ x. x.count) fight_table))
              ≡ modulo (sum_by (λ i. 1) (named name) fight))
          × (modulo (amount name (column (λ x. x.crit_count) fight_table))
              ≡ modulo (sum_by (λ i. 1) (named_crit name) fight)))
unfolding rows totals rows_from add_info add_amount amount no_totals before
column-rows_example = column-rows before before-IsOrder fight fight_table refl
