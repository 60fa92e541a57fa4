-- ===== src/Errors/Arguments.antt =====
-- The macros that read a parameter, and the reads through pointers.
use dpscalclua.Base.{ℕ, String, Bool, false, List}
use dpscalclua.Event.{CreatureRef, the_player, creature}
use dpscalclua.Store.{World, M}
use dpscalclua.Script.{LuaApi, Reply}
use dpscalclua.Heap.{read_event, read_aura, unit_auras}
use dpscalclua.Lua.Args.{need_string, need_number, need_integer, need_boolean, with_player}
use dpscalclua.Errors.Rules.{Reads, Raises, raise_rules}

module _ {D L : Type 0} where
  pub Reads-read_event : (a : ℕ) → Reads (read_event {D = D} {L = L} a)
  unfolding read_event
  Reads-read_event a = search raise_rules

  pub Reads-read_aura : (a : ℕ) → Reads (read_aura {D = D} {L = L} a)
  unfolding read_aura
  Reads-read_aura a = search raise_rules

  pub Reads-unit_auras : (u : CreatureRef) → Reads (unit_auras {D = D} {L = L} u)
  unfolding unit_auras
  Reads-unit_auras the_player = search raise_rules
  Reads-unit_auras (creature c) = search raise_rules

module _ {D L : Type 0} {w : World D L} {b : Bool} where
  pub Raises-with_player : (k : M (World D L) (Reply D)) → Raises w b k → Raises w b (with_player k)
  unfolding with_player
  Raises-with_player k h = search raise_rules

module _ {D V L : Type 0} (api : LuaApi V D) {w : World D L} where
  pub Raises-need_string :
      (vs : List V) (i : ℕ) (rest : String → M (World D L) (Reply D))
      → ((x : String) → Raises w false (rest x))
      → Raises w false (need_string api vs i rest)
  unfolding need_string
  Raises-need_string vs i rest k = search raise_rules

  pub Raises-need_number :
      (vs : List V) (i : ℕ) (rest : D → M (World D L) (Reply D))
      → ((x : D) → Raises w false (rest x))
      → Raises w false (need_number api vs i rest)
  unfolding need_number
  Raises-need_number vs i rest k = search raise_rules

  pub Raises-need_integer :
      (vs : List V) (i : ℕ) (rest : ℕ → M (World D L) (Reply D))
      → ((x : ℕ) → Raises w false (rest x))
      → Raises w false (need_integer api vs i rest)
  unfolding need_integer
  Raises-need_integer vs i rest k = search raise_rules

  pub Raises-need_boolean :
      (vs : List V) (i : ℕ) (rest : Bool → M (World D L) (Reply D))
      → ((x : Bool) → Raises w false (rest x))
      → Raises w false (need_boolean api vs i rest)
  unfolding need_boolean
  Raises-need_boolean vs i rest k = search raise_rules

pub ruleset argument_rules = (
  raise_rules, Reads-read_event, Reads-read_aura, Reads-unit_auras, Raises-with_player,
  Raises-need_string, Raises-need_number, Raises-need_integer, Raises-need_boolean,
)
