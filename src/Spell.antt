-- ===== src/Spell.antt =====
-- `DPSCalc/Spell.h`, `Spell.cpp`: spells and their database. A pointer to an aura template is the
-- template's id, `none` for NULL.
use dpscalclua.Base.{ℕ, String, [], ◌∷◌, Option, none, some, add32, if◌then◌else◌}
use dpscalclua.Double.{Double, zero_point}
use dpscalclua.Map.{Map, find, insert}
use text.Mathlib.Text.{◌==◌ as str_eq}

pub record Spell (D : Type 0) : Type 0 where
  pub name : String
  pub spell_type : ℕ
  pub damage_min : ℕ
  pub damage_max : ℕ
  pub id : ℕ
  pub cast_time : ℕ
  pub cooldown : ℕ
  pub channel_ticks : ℕ
  pub school : ℕ
  pub aura_to_apply : Option ℕ
  pub aura_fade_time : ℕ
  pub sp_percentage : D

pub record SpellDb (D : Type 0) : Type 0 where
  pub id_counter : ℕ
  pub spells : Map (Spell D)

module _ {D : Type 0} where
  -- `CSpell(name, ...)`; the id is not set.
  unfoldable pub new_spell :
      ⦃d : Double D⦄ → ℕ → String → ℕ → ℕ → ℕ → ℕ → ℕ → ℕ → Option ℕ → ℕ → ℕ → Spell D
  new_spell junk_id name kind dmin dmax cast cooldown school aura fade ticks = record {
    name = name;
    spell_type = kind;
    damage_min = dmin;
    damage_max = dmax;
    id = junk_id;
    cast_time = cast;
    cooldown = cooldown;
    channel_ticks = ticks;
    school = school;
    aura_to_apply = aura;
    aura_fade_time = fade;
    sp_percentage = zero_point;
  }

  unfoldable pub empty_spell_db : SpellDb D
  empty_spell_db = record { id_counter = 0; spells = [] }

  unfoldable pub add_spell : SpellDb D → Spell D → SpellDb D × ℕ
  add_spell db s =
      let id = add32 db.id_counter 1 in
      (record { id_counter = id; spells = insert id (record s { id = id }) db.spells }, id)

  unfoldable pub get_spell_by_id : SpellDb D → ℕ → Option (Spell D)
  get_spell_by_id db id = find id db.spells

  unfoldable pub spell_by_name : Map (Spell D) → String → Option (Spell D)
  spell_by_name [] name = none
  spell_by_name ((id, s) ∷ m) name = if str_eq s.name name then some s else spell_by_name m name

  unfoldable pub get_spell_by_name : SpellDb D → String → Option (Spell D)
  unfolding spell_by_name
  get_spell_by_name db name = spell_by_name db.spells name
