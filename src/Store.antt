-- ===== src/Store.antt =====
-- The store that the program's parts share (the global variables of `DPSCalc/DPSCalc.cpp` and
-- `LuaIntergration.cpp`, and the heap behind the pointers), and the steps on it, which may fault.
use dpscalclua.Base.{ℕ, Bool, true, false, String, List, Option, none, some}
use dpscalclua.Map.{Map}
use dpscalclua.Aura.{Aura, AuraDb}
use dpscalclua.Spell.{SpellDb}
use dpscalclua.Creature.{Creature}
use dpscalclua.Player.{Player}
use dpscalclua.Event.{Event, CreatureRef}
use dpscalclua.EventSystem.{EventSystem}

-- One entry of `CDefaultReporter::_v`.
pub record DamageInfo : Type 0 where
  pub spell_name : String
  pub damage : ℕ
  pub game_time : ℕ
  pub is_crit : Bool

-- `DamageInfoVB`.
pub record InfoRow : Type 0 where
  pub index : ℕ
  pub damage : ℕ
  pub count : ℕ
  pub crit_count : ℕ
  pub spell_name : String

pub record World (D L : Type 0) : Type 0 where
  pub system : EventSystem
  pub player : Player D
  pub creatures : List Creature
  pub aura_db : AuraDb D
  pub spell_db : SpellDb D
  -- The objects made by `new`, by address, and the next address; none is used twice.
  pub events : Map (Event D)
  pub auras : Map (Aura D)
  pub next_addr : ℕ
  -- `CAura::m_iGUIDCounter`.
  pub guid_counter : ℕ
  -- How often `rand` was called.
  pub draws : ℕ
  -- What the Lua scripts keep.
  pub lua : L
  pub current_event : Option ℕ
  pub current_target : Option CreatureRef
  pub has_player : Bool
  pub normalize_crit : Bool
  pub damage_counter : ℕ
  -- `pReporter`: `none` is NULL, else the entries of `_v`, newest first.
  pub reports : Option (List DamageInfo)
  -- `_isSave` of the reporter.
  pub is_save : Bool
  -- `pDamageInfo`.
  pub damage_info : List InfoRow
  -- The bytes of `CombatLog.txt` and `CombatLogLite.txt`.
  pub combat_log : List ℕ
  pub lite_log : List ℕ

-- What stops the program, or is undefined in C++.
pub data Fault : Type 0 where
  dangling_event : ℕ → Fault
  dangling_aura : ℕ → Fault
  dangling_creature : ℕ → Fault
  null_pointer : Fault
  bad_event : Fault
  division_by_zero : Fault
  bad_index : Fault
  overflow : Fault

pub data Outcome {ℓ} (S : Type ℓ) (A : Type ℓ) : Type ℓ where
  done : A → S → Outcome S A
  fault : Fault → Outcome S A

-- A step on the store `S`.
abbrev pub M : Type 0 → Type 0 → Type 0
M S A = S → Outcome S A

-- The part after a step, as `>>=` makes it.
abbrev pub after : {S A B : Type 0} → (B → M S A) → Outcome S B → Outcome S A
after f o = elim o [ fault e ↦ fault e | done b v ↦ f b v ]

module _ {S : Type 0} where
  unfoldable pub pure : {A : Type 0} → A → M S A
  pure a s = done a s

  unfoldable pub fail : {A : Type 0} → Fault → M S A
  fail f s = fault f

  unfoldable pub get : M S S
  get s = done s s

  unfoldable pub modify : (S → S) → M S (Unit {0})
  modify f s = done tt (f s)

  unfoldable pub or_fault : {A : Type 0} → Fault → Option A → M S A
  or_fault f none s = fault f
  or_fault f (some a) s = done a s

  -- `if (test) { step }`.
  unfoldable pub when : Bool → M S (Unit {0}) → M S (Unit {0})
  when true step s = step s
  when false step s = done tt s

  -- `if (pointer) { ... } else { ... }`.
  unfoldable pub on_option : {A B : Type 0} → Option A → M S B → (A → M S B) → M S B
  on_option none m f = m
  on_option (some a) m f = f a

  infixl 5 ◌>>=◌ ◌>>◌
  -- Opening this opens the steps above.
  unfoldable pub ◌>>=◌ : {A B : Type 0} → M S A → (A → M S B) → M S B
  unfolding pure fail get modify or_fault when on_option
  ◌>>=◌ m f s = elim (m s) [ fault e ↦ fault e | done a s' ↦ f a s' ]

  abbrev pub ◌>>◌ : {B : Type 0} → M S (Unit {0}) → M S B → M S B
  m >> k = m >>= λ _. k
