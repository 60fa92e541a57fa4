-- ===== src/Registry/Spells.antt =====
-- The laws of `CSpellDB` (`DPSCalc/Spell.cpp`).
use dpscalclua.Base.{
  ℕ, ◌+◌, ◌<◌, ◌≡◌, refl, String, [], ◌∷◌, none, some, arith, add32, word_mod, ◌==◌, if◌then◌else◌,
}
use dpscalclua.Map.{Map, insert, From}
use dpscalclua.Map.Laws.{From-insert, find-insert_new}
use dpscalclua.Spell.{
  Spell, SpellDb, add_spell, empty_spell_db, get_spell_by_id, get_spell_by_name, spell_by_name,
}
use dpscalclua.Registry.Ids.{UpTo, UpTo-find, UpTo-insert}
use text.Mathlib.Text.{◌==◌ as str_eq}

-- The ids run from 1 to the counter.
pub record IsValid {D : Type 0} (db : SpellDb D) : Type 0 where
  pub ascending : From 1 db.spells
  pub up_to : UpTo db.id_counter db.spells

module _ {D : Type 0} where
  -- The new entry goes to the end.
  name-insert :
      (n k : ℕ) (v : Spell D) (name : String) (m : Map (Spell D))
      → UpTo n m
      → n < k
      → spell_by_name (insert k v m) name ≡ (elim (spell_by_name m name) [
        | some x ↦ some x
        | none ↦ if str_eq v.name name then some v else none
      ])
  unfolding spell_by_name insert
  name-insert n k v name [] h lt = refl
  name-insert n k v name ((j, w) ∷ m) h lt = ground (arith, name-insert n k v name m h.1 lt)

  pub empty_spell_db-IsValid : IsValid (empty_spell_db {D = D})
  unfolding empty_spell_db
  empty_spell_db-IsValid = record { ascending = tt; up_to = tt }

module _ {D : Type 0} (db : SpellDb D) (a : Spell D) (h : IsValid db)
    (room : db.id_counter + 1 < word_mod) where
  -- `AddSpell` keeps the database valid, as long as its counter does not overflow.
  pub add_spell-IsValid : IsValid (add_spell db a).0
  unfolding add_spell
  add_spell-IsValid = record {
    ascending = From-insert (add32 db.id_counter 1) _ 1 db.spells h.ascending (omega arith);
    up_to = UpTo-insert db.id_counter (add32 db.id_counter 1) _ db.spells h.up_to (omega arith);
  }

  -- Lookups by id after `AddSpell` on a valid database whose counter does not overflow: the id that
  -- it returns gives the entry with this id, every other id what it gave before.
  pub get_spell_by_id-add_spell :
      (id : ℕ)
      → get_spell_by_id (add_spell db a).0 id ≡ (
          if (add_spell db a).1 == id
          then some (record a { id = (add_spell db a).1 })
          else get_spell_by_id db id)
  unfolding add_spell get_spell_by_id
  get_spell_by_id-add_spell id =
      let k = add32 db.id_counter 1 in
      find-insert_new id k (record a { id = k }) db.spells
        (UpTo-find db.id_counter k db.spells h.up_to (omega arith))

  -- Lookups by name after `AddSpell` on a valid database whose counter does not overflow: the entry
  -- that was found before is found again, and the new one only where nothing was found.
  pub get_spell_by_name-add_spell :
      (name : String)
      → get_spell_by_name (add_spell db a).0 name ≡ (elim (get_spell_by_name db name) [
        | some x ↦ some x
        | none ↦ if str_eq a.name name then some (record a { id = (add_spell db a).1 }) else none
      ])
  unfolding add_spell get_spell_by_name
  get_spell_by_name-add_spell name =
      let k = add32 db.id_counter 1 in
      name-insert db.id_counter k (record a { id = k }) name db.spells h.up_to (omega arith)
