-- ===== src/Creature.antt =====
-- `DPSCalc/Creature.h`, `Creature.cpp`: creatures, the auras on them, and the list of creatures.
-- `m_auraMap` maps the id of an aura to the address of the copy that the creature carries.
-- A creature lives as long as it stands in the list, which owns it.
use dpscalclua.Base.{
  ℕ, String, Bool, true, false, List, [], ◌∷◌, ◌++◌, Option, none, some, ◌==◌, if◌then◌else◌,
}
use dpscalclua.Map.{Map, find, insert, erase}
use text.Mathlib.Text.{◌==◌ as str_eq}

abbrev pub AuraMap : Type 0
AuraMap = Map ℕ

pub record Creature : Type 0 where
  pub addr : ℕ
  pub name : String
  pub auras : AuraMap

unfoldable pub new_creature : ℕ → String → Creature
new_creature addr name = record { addr = addr; name = name; auras = [] }

-- `GetAuraByID` and `GetAuraByIDForModification`.
unfoldable pub get_aura : AuraMap → ℕ → Option ℕ
get_aura m id = find id m

unfoldable pub apply_aura : AuraMap → (id addr : ℕ) → AuraMap × Bool
apply_aura m id addr = elim (find id m) [ none ↦ (insert id addr m, true) | some old ↦ (m, false) ]

unfoldable pub is_aura_applied_by_id : AuraMap → ℕ → Bool
is_aura_applied_by_id m id = elim (find id m) [ none ↦ false | some a ↦ true ]

-- The loop of `RemoveAura`: it erases the entry whose pointer is the given one.
unfoldable pub remove_aura : AuraMap → ℕ → AuraMap × Bool
remove_aura [] addr = ([], false)
remove_aura ((id, a) ∷ m) addr =
    let (rest, done) = remove_aura m addr in if addr == a then (m, true) else ((id, a) ∷ rest, done)

-- After the `erase` the result compares an iterator that is no longer valid: `none`.
unfoldable pub remove_aura_by_id : AuraMap → ℕ → AuraMap × Option Bool
remove_aura_by_id m id = elim (find id m) [ none ↦ (m, some false) | some a ↦ (erase id m, none) ]

-- `CCreatureDB`.
unfoldable pub add_creature : List Creature → Creature → List Creature
add_creature v c = v ++ (c ∷ [])

unfoldable pub remove_creature_by_name : List Creature → String → List Creature
remove_creature_by_name [] name = []
remove_creature_by_name (c ∷ v) name =
    if str_eq c.name name then v else c ∷ remove_creature_by_name v name

unfoldable pub get_creature_by_name : List Creature → String → Option Creature
get_creature_by_name [] name = none
get_creature_by_name (c ∷ v) name =
    if str_eq c.name name then some c else get_creature_by_name v name

-- What a pointer to a creature reads: `none` once the creature is deleted.
unfoldable pub creature_at : List Creature → ℕ → Option Creature
creature_at [] addr = none
creature_at (c ∷ v) addr = if c.addr == addr then some c else creature_at v addr

-- A write through such a pointer.
unfoldable pub write_creature : List Creature → Creature → List Creature
write_creature [] c = []
write_creature (x ∷ v) c = if x.addr == c.addr then c ∷ v else x ∷ write_creature v c
