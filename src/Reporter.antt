-- ===== src/Reporter.antt =====
-- `CDefaultReporter` (`DPSCalc/Reporter.cpp`) and `GetDamageInfo` (`DPSCalc/DPSCalc.cpp`): the sums for
-- each spell that the destructor puts into `pDamageInfo`. Log has the texts that it writes, Object the
-- constructor and the destructor.
pub mod Log
pub mod Object
pub mod ReadBack
use dpscalclua.Base.{
  ℕ, ◌+◌, String, Bool, List, [], ◌∷◌, Option, none, some, add32, leb, get_elem?, if◌then◌else◌,
}
use text.Mathlib.Text.{◌==◌ as str_eq}
use dpscalclua.Store.{DamageInfo, InfoRow}

-- `std::map<const char*, uint32, less_str>`, in the order of the names.
abbrev pub DamageMap : Type 0
DamageMap = List (String × ℕ)

unfoldable pub amount : String → DamageMap → Option ℕ
amount name [] = none
amount name ((n, v) ∷ m) = if str_eq n name then some v else amount name m

-- The local variables of the destructor's first loop.
pub record Totals : Type 0 where
  pub damage : DamageMap
  pub count : DamageMap
  pub crit_count : DamageMap
  pub total : ℕ

unfoldable pub no_totals : Totals
no_totals = record { damage = []; count = []; crit_count = []; total = 0 }

-- The loop over the newest-first `_v` from its oldest entry; `less` is `strcmp(...) < 0`.
module _ (less : String → String → Bool) where
  -- `find`, and then either `+=` or `insert`.
  unfoldable pub add_amount : String → ℕ → DamageMap → DamageMap
  add_amount name v [] = (name, v) ∷ []
  add_amount name v ((n, u) ∷ m) =
      let rest = add_amount name v m in
      if str_eq n name
      then (n, add32 u v) ∷ m
      else (if less name n then (name, v) ∷ (n, u) ∷ m else (n, u) ∷ rest)

  unfoldable pub add_info : Totals → DamageInfo → Totals
  unfolding add_amount
  add_info t i = record {
    damage = add_amount i.spell_name i.damage t.damage;
    count = add_amount i.spell_name 1 t.count;
    crit_count = if i.is_crit then add_amount i.spell_name 1 t.crit_count else t.crit_count;
    total = add32 t.total i.damage;
  }

  unfoldable pub totals : List DamageInfo → Totals
  unfolding add_info no_totals
  totals [] = no_totals
  totals (i ∷ older) = add_info (totals older) i

abbrev pub info_row :
    ℕ → String → ℕ → Option ℕ → Option ℕ → Option (List InfoRow) → Option (List InfoRow)
info_row j name v (some n) (some c) (some rest) =
    some (record { index = j; damage = v; count = n; crit_count = c; spell_name = name } ∷ rest)
info_row j name v (some n) (some c) none = none
info_row j name v (some n) none rest = none
info_row j name v none c rest = none

-- The second loop: the entries of `pDamageInfo` from `j` on. `none` is undefined: a name with no crit,
-- whose `end()` is read, or an entry beyond the array.
unfoldable pub rows_from : Totals → (j : ℕ) → DamageMap → Option (List InfoRow)
rows_from t j [] = some []
rows_from t j ((name, v) ∷ m) =
    let rest = rows_from t (j + 1) m in
    if leb 100 j
    then none
    else info_row j name v (amount name t.count) (amount name t.crit_count) rest

unfoldable pub rows : Totals → Option (List InfoRow)
unfolding rows_from
rows t = rows_from t 0 t.damage

abbrev pub info_found : ℕ → Option InfoRow → ℕ × Option InfoRow
info_found i none = (0, none)
info_found i (some r) = (i + 1, some r)

-- `pDamageInfo[i]`: 100 pointers, NULL beyond the table. `none` is an index out of bounds.
unfoldable pub read_info : List InfoRow → ℕ → Option (Option InfoRow)
read_info table i = if leb 100 i then none else some (get_elem? table i)

abbrev pub answered : ℕ → Option (Option InfoRow) → Option (ℕ × Option InfoRow)
answered i none = none
answered i (some o) = some (info_found i o)

-- `GetDamageInfo`: the next index and, for the result 1, the entry that is copied. The left side of the `||` comes
-- first. `none` is a read out of bounds.
unfoldable pub get_damage_info : List InfoRow → ℕ → Option (ℕ × Option InfoRow)
unfolding read_info
get_damage_info table i = if leb 100 i then some (0, none) else answered i (read_info table i)
