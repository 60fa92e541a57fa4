-- ===== src/Aura.antt =====
-- `DPSCalc/Aura.h`, `Aura.cpp`: auras and their database. A template lives in the database; what a
-- creature carries is a copy of one, with a new address and a new GUID.
use dpscalclua.Base.{ℕ, String, Bool, [], ◌∷◌, Option, none, some, add32, if◌then◌else◌}
use dpscalclua.Double.{Double, zero_point}
use dpscalclua.Map.{Map, find, insert}
use text.Mathlib.Text.{◌==◌ as str_eq}

pub record Aura (D : Type 0) : Type 0 where
  -- The object's address, by which pointers to it are compared.
  pub addr : ℕ
  pub id : ℕ
  pub ticks : ℕ
  pub periodic_event_time : ℕ
  pub name : String
  pub is_periodic : Bool
  pub crit_enabled : Bool
  pub haste_enabled : Bool
  pub periodic_damage_min : ℕ
  pub periodic_damage_max : ℕ
  pub fade_time : ℕ
  pub school : ℕ
  pub guid : ℕ
  pub spell_power_factor : D
  pub spell_power : ℕ

-- `CAura::m_iGUIDCounter`, a `uint32`.
abbrev pub next_guid : ℕ → ℕ
next_guid counter = add32 counter 1

module _ {D : Type 0} where
  -- `CAura(name, ticks, ...)`. The fields that it leaves out have what `junk` has.
  unfoldable pub new_aura :
      ⦃d : Double D⦄ → Aura D → ℕ → ℕ → String → ℕ → Bool → ℕ → ℕ → ℕ → Bool → Bool → ℕ → Aura D
  new_aura junk addr guid name ticks periodic dmin dmax school crit haste period = record {
    addr = addr;
    id = junk.id;
    ticks = ticks;
    periodic_event_time = period;
    name = name;
    is_periodic = periodic;
    crit_enabled = crit;
    haste_enabled = haste;
    periodic_damage_min = dmin;
    periodic_damage_max = dmax;
    fade_time = junk.fade_time;
    school = school;
    guid = guid;
    spell_power_factor = zero_point;
    spell_power = 0;
  }

  -- `CAura(const CAura*)`: a template that is not periodic passes on its name, its ticks and its id
  -- alone; the other fields of the copy stay as the memory had them.
  unfoldable pub copy_aura : Aura D → ℕ → ℕ → Aura D → Aura D
  copy_aura junk addr guid from =
      if from.is_periodic
      then record from { addr = addr; guid = guid; fade_time = junk.fade_time; spell_power = 0 }
      else record junk {
        addr = addr;
        guid = guid;
        name = from.name;
        ticks = from.ticks;
        is_periodic = from.is_periodic;
        id = from.id;
      }

pub record AuraDb (D : Type 0) : Type 0 where
  pub auras : Map (Aura D)
  pub id_counter : ℕ

module _ {D : Type 0} where
  unfoldable pub empty_aura_db : AuraDb D
  empty_aura_db = record { auras = []; id_counter = 0 }

  unfoldable pub add_aura : AuraDb D → Aura D → AuraDb D × ℕ
  add_aura db a =
      let id = add32 db.id_counter 1 in
      (record { auras = insert id (record a { id = id }) db.auras; id_counter = id }, id)

  unfoldable pub get_aura_by_id : AuraDb D → ℕ → Option (Aura D)
  get_aura_by_id db id = find id db.auras

  unfoldable pub aura_by_name : Map (Aura D) → String → Option (Aura D)
  aura_by_name [] name = none
  aura_by_name ((id, a) ∷ m) name = if str_eq a.name name then some a else aura_by_name m name

  unfoldable pub get_aura_by_name : AuraDb D → String → Option (Aura D)
  unfolding aura_by_name
  get_aura_by_name db name = aura_by_name db.auras name
