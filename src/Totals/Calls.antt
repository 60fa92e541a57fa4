-- ===== src/Totals/Calls.antt =====
-- The table as the client of `GetDamageInfo` (`DPSCalc/DPSCalc.cpp`) sees it.
use dpscalclua.Base.{
  ℕ, zero, suc, ◌+◌, ◌≤◌, ◌<◌, ◌≡◌, refl, ap, ◌∙◌, List, [], ◌∷◌, Option, none, some, arith, length,
  get_elem?,
}
use dpscalclua.Store.{InfoRow}
use dpscalclua.Reporter.{DamageMap, Totals, rows_from, rows, read_info, get_damage_info}
use dpscalclua.Totals.{rows_from_cases}

rows_from-length :
    (t : Totals) (j : ℕ) (m : DamageMap) (r : List InfoRow)
    → rows_from t j m ≡ some r
    → j ≤ 100
    → j + length r ≤ 100
unfolding rows_from
rows_from-length t j [] r h le = ground (arith, h)
rows_from-length t j ((name, v) ∷ m) r h le =
    let (x, l, e, g, lt, i, d, n, seen, crits) = rows_from_cases t j name v m r h in
    rw e (omega (arith, rows_from-length t (j + 1) m l g (omega arith)))

-- The calls of a client that starts at an index and goes on with the one that it was given, until a call has
-- the result 0: the entries in their order. `none` is a read out of bounds, or too little fuel.
abbrev with_entry : InfoRow → Option (List InfoRow) → Option (List InfoRow)
with_entry x none = none
with_entry x (some l) = some (x ∷ l)

abbrev pub collect : (fuel : ℕ) → List InfoRow → ℕ → Option (List InfoRow)
collect zero table i = none
collect (suc fuel) table i = elim (get_damage_info table i) [
  | none ↦ none
  | some (next, none) ↦ some []
  | some (next, some x) ↦ with_entry x (collect fuel table next)
]

get_damage_info-none :
    (r : List InfoRow) (i : ℕ) → get_elem? r i ≡ none → get_damage_info r i ≡ some (0, none)
unfolding get_damage_info read_info
get_damage_info-none r i h = ground (arith, h)

get_damage_info-some :
    (r : List InfoRow) (i : ℕ) (x : InfoRow)
    → i < 100
    → get_elem? r i ≡ some x
    → get_damage_info r i ≡ some (i + 1, some x)
unfolding get_damage_info read_info
get_damage_info-some r i x lt h = ground (arith, h)

get_elem_none : (r : List InfoRow) (i : ℕ) → length r ≤ i → get_elem? r i ≡ none
get_elem_none [] i h = refl
get_elem_none (x ∷ r) zero h = absurd (omega arith)
get_elem_none (x ∷ r) (suc i) h = get_elem_none r i (omega arith)

-- The calls from an index on, behind which the table has the entries `l`.
collect_from :
    (l r : List InfoRow) (i : ℕ)
    → i + length l ≤ 100
    → ((k : ℕ) → get_elem? r (i + k) ≡ get_elem? l k)
    → collect (suc (length l)) r i ≡ some l
collect_from [] r i fits same =
    let at : i ≡ i + 0 = omega arith in
    let beyond = ap (get_elem? r) at ∙ same 0 in rw (get_damage_info-none r i beyond, collect) refl
collect_from (x ∷ l) r i fits same =
    let at : i ≡ i + 0 = omega arith in
    let here = ap (get_elem? r) at ∙ same 0 in
    rw (get_damage_info-some r i x (omega arith) here, collect)
      (ap (with_entry x)
        (collect_from l r (i + 1) (omega arith) λ k. ap (get_elem? r) (omega arith) ∙ same (suc k)))

-- `GetDamageInfo`, called with the index 0 and then with the index of the call before, gives out the rows
-- of the table in their order and then has the result 0, in one call more than there are rows. For an index beyond
-- the rows it has the result 0, and it reads out of bounds for no index.
pub collect-rows :
    (t : Totals) (r : List InfoRow)
    → rows t ≡ some r
    → (collect (suc (length r)) r 0 ≡ some r)
      × ((k : ℕ) → length r ≤ k → get_damage_info r k ≡ some (0, none))
unfolding rows
collect-rows t r h = (
  collect_from r r 0 (rows_from-length t 0 t.damage r h (omega arith))
      λ k. ap (get_elem? r) (omega arith),
  λ k le. get_damage_info-none r k (get_elem_none r k le),
)
