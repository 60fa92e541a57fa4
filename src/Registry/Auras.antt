-- ===== src/Registry/Auras.antt =====
-- The laws of `CAuraDB` (`DPSCalc/Aura.cpp`).
use dpscalclua.Base.{
  ℕ, ◌+◌, ◌<◌, ◌≡◌, refl, String, [], ◌∷◌, none, some, arith, add32, word_mod, ◌==◌, if◌then◌else◌,
}
use dpscalclua.Map.{Map, insert, From}
use dpscalclua.Map.Laws.{From-insert, find-insert_new}
use dpscalclua.Aura.{
  Aura, AuraDb, add_aura, empty_aura_db, get_aura_by_id, get_aura_by_name, aura_by_name,
}
use dpscalclua.Registry.Ids.{UpTo, UpTo-find, UpTo-insert}
use text.Mathlib.Text.{◌==◌ as str_eq}

-- The ids run from 1 to the counter.
pub record IsValid {D : Type 0} (db : AuraDb D) : Type 0 where
  pub ascending : From 1 db.auras
  pub up_to : UpTo db.id_counter db.auras

module _ {D : Type 0} where
  -- The new entry goes to the end.
  name-insert :
      (n k : ℕ) (v : Aura D) (name : String) (m : Map (Aura D))
      → UpTo n m
      → n < k
      → aura_by_name (insert k v m) name ≡ (elim (aura_by_name m name) [
        | some x ↦ some x
        | none ↦ if str_eq v.name name then some v else none
      ])
  unfolding aura_by_name insert
  name-insert n k v name [] h lt = refl
  name-insert n k v name ((j, w) ∷ m) h lt = ground (arith, name-insert n k v name m h.1 lt)

  pub empty_aura_db-IsValid : IsValid (empty_aura_db {D = D})
  unfolding empty_aura_db
  empty_aura_db-IsValid = record { ascending = tt; up_to = tt }

module _ {D : Type 0} (db : AuraDb D) (a : Aura D) (h : IsValid db)
    (room : db.id_counter + 1 < word_mod) where
  -- `AddAura` keeps the database valid, as long as its counter does not overflow.
  pub add_aura-IsValid : IsValid (add_aura db a).0
  unfolding add_aura
  add_aura-IsValid = record {
    ascending = From-insert (add32 db.id_counter 1) _ 1 db.auras h.ascending (omega arith);
    up_to = UpTo-insert db.id_counter (add32 db.id_counter 1) _ db.auras h.up_to (omega arith);
  }

  -- Lookups by id after `AddAura` on a valid database whose counter does not overflow: the id that
  -- it returns gives the entry with this id, every other id what it gave before.
  pub get_aura_by_id-add_aura :
      (id : ℕ)
      → get_aura_by_id (add_aura db a).0 id ≡ (
          if (add_aura db a).1 == id
          then some (record a { id = (add_aura db a).1 })
          else get_aura_by_id db id)
  unfolding add_aura get_aura_by_id
  get_aura_by_id-add_aura id =
      let k = add32 db.id_counter 1 in
      find-insert_new id k (record a { id = k }) db.auras
        (UpTo-find db.id_counter k db.auras h.up_to (omega arith))

  -- Lookups by name after `AddAura` on a valid database whose counter does not overflow: the entry
  -- that was found before is found again, and the new one only where nothing was found.
  pub get_aura_by_name-add_aura :
      (name : String)
      → get_aura_by_name (add_aura db a).0 name ≡ (elim (get_aura_by_name db name) [
        | some x ↦ some x
        | none ↦ if str_eq a.name name then some (record a { id = (add_aura db a).1 }) else none
      ])
  unfolding add_aura get_aura_by_name
  get_aura_by_name-add_aura name =
      let k = add32 db.id_counter 1 in
      name-insert db.id_counter k (record a { id = k }) name db.auras h.up_to (omega arith)
