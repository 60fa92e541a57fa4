-- ===== src/Carried.antt =====
-- The auras that a creature carries (`DPSCalc/Creature.cpp`): `ApplyAura`, `RemoveAura`, `RemoveAuraByID`
-- and the lookups.
use dpscalclua.Base.{
  ℕ, suc, ◌≡◌, ◌≢◌, refl, true, false, [], ◌∷◌, none, some, inl, inr, arith, ◌==◌, if◌then◌else◌,
  Option-cases,
}
use dpscalclua.Map.{find, insert, From, IsSorted}
use dpscalclua.Map.Laws.{find_below, find-insert_new, find-erase}
use dpscalclua.Creature.{
  AuraMap, get_aura, apply_aura, is_aura_applied_by_id, remove_aura, remove_aura_by_id,
}

-- No entry holds the address.
abbrev pub Absent : ℕ → AuraMap → Type 0
Absent addr [] = Unit {0}
Absent addr ((id, a) ∷ m) = (addr ≢ a) × Absent addr m

-- No two entries hold one address.
abbrev pub IsDistinct : AuraMap → Type 0
IsDistinct [] = Unit {0}
IsDistinct ((id, a) ∷ m) = Absent a m × IsDistinct m

-- `ApplyAura` on an id that is free makes the aura found under it; on one that is taken it changes
-- nothing. Other ids keep what they had.
pub get_aura-apply_aura :
    (m : AuraMap) (id addr j : ℕ)
    → get_aura (apply_aura m id addr).0 j ≡ (elim (get_aura m id) [
      | none ↦ if id == j then some addr else get_aura m j
      | some old ↦ get_aura m j
    ])
unfolding get_aura apply_aura
get_aura-apply_aura m id addr j = elim (Option-cases (find id m)) [
  | inl h ↦ rw (h, apply_aura) (find-insert_new j id addr m h)
  | inr (a, h) ↦ rw (h, apply_aura) refl
]

-- `ApplyAura` succeeds exactly if the id was not applied, and afterwards it is.
pub apply_aura_lem :
    (m : AuraMap) (id addr : ℕ)
    → ((apply_aura m id addr).1 ≡ (if is_aura_applied_by_id m id then false else true))
      × (is_aura_applied_by_id (apply_aura m id addr).0 id ≡ true)
unfolding apply_aura is_aura_applied_by_id
apply_aura_lem m id addr = elim (Option-cases (find id m)) [
  | inl h ↦
      rw (h, apply_aura, is_aura_applied_by_id)
        (refl, rw (find-insert_new id id addr m h, is_aura_applied_by_id) (ground arith))
  | inr (a, h) ↦
      rw (h, apply_aura, is_aura_applied_by_id) (refl, rw (h, is_aura_applied_by_id) refl)
]

find-Absent : (m : AuraMap) (j addr : ℕ) → Absent addr m → find j m ≢ some addr
unfolding find
find-Absent [] j addr h e = ground arith
find-Absent ((id, a) ∷ m) j addr h e = ground (arith, find-Absent m j addr h.1, h.0)

-- `RemoveAura` takes away the aura with the given address, and no other one, if the ids ascend and no
-- address occurs twice.
pub get_aura-remove_aura :
    (m : AuraMap) (lo addr j : ℕ)
    → From lo m
    → IsDistinct m
    → get_aura (remove_aura m addr).0 j
      ≡ (elim (get_aura m j) [ none ↦ none | some a ↦ if addr == a then none else some a ])
unfolding get_aura remove_aura find
get_aura-remove_aura [] lo addr j s d = refl
get_aura-remove_aura ((id, a) ∷ m) lo addr j s d = ground (
  arith,
  get_aura-remove_aura m (suc id) addr j s.1 d.1,
  find_below j (suc id) m s.1,
  find-Absent m j addr,
)

remove_aura-insert :
    (m : AuraMap) (id addr : ℕ)
    → Absent addr m
    → find id m ≡ none
    → remove_aura (insert id addr m) addr ≡ (m, true)
unfolding remove_aura insert find
remove_aura-insert [] id addr ab h = ground arith
remove_aura-insert ((j, a) ∷ m) id addr ab h = ground (arith, remove_aura-insert m id addr ab.1)

-- An aura that is applied under a free id, with an address that the map does not hold, and removed
-- again leaves the map as it was.
pub remove_aura-apply_aura :
    (m : AuraMap) (id addr : ℕ)
    → Absent addr m
    → is_aura_applied_by_id m id ≡ false
    → remove_aura (apply_aura m id addr).0 addr ≡ (m, true)
unfolding apply_aura is_aura_applied_by_id
remove_aura-apply_aura m id addr ab free = elim (Option-cases (find id m)) [
  | inl h ↦ rw (h, apply_aura) (remove_aura-insert m id addr ab h)
  | inr (a, h) ↦ absurd (ground (arith, h))
]

-- `RemoveAuraByID` on a map with ascending ids: the id is not applied afterwards, other ids keep
-- what they had, and the result is defined only if there was nothing to remove.
pub remove_aura_by_id_lem :
    (m : AuraMap) (id j : ℕ)
    → IsSorted m
    → (get_aura (remove_aura_by_id m id).0 j ≡ (if id == j then none else get_aura m j))
      × ((remove_aura_by_id m id).1 ≡ (if is_aura_applied_by_id m id then none else some false))
unfolding get_aura remove_aura_by_id is_aura_applied_by_id
remove_aura_by_id_lem m id j s = elim (Option-cases (find id m)) [
  | inl h ↦ rw (h, remove_aura_by_id, is_aura_applied_by_id) (ground (arith, h), refl)
  | inr (a, h) ↦ rw (h, remove_aura_by_id, is_aura_applied_by_id) (find-erase j id 0 m s, refl)
]
