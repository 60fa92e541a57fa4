-- ===== src/Safety/Units.antt =====
-- The functions of `DPSCalc/LuaIntergration.cpp` that make events or other objects keep a frame.
use dpscalclua.Base.{ℕ, suc, Bool, List}
use dpscalclua.Double.{Double}
use dpscalclua.Creature.{Creature}
use dpscalclua.Event.{CreatureRef, new_spell_event, new_aura_event}
use dpscalclua.EventSystem.{ready_exit}
use dpscalclua.Store.{World, modify}
use dpscalclua.Script.{Env}
use dpscalclua.Lua.Units.{
  start_cast, start_aura, lua_target_create, lua_target_destroy, lua_cast_spell_by_name,
  lua_unit_apply_aura, lua_unit_aura_applied, lua_get_game_time, lua_finalize_calculation,
}
use dpscalclua.Safety.Meets.{Keeps}
use dpscalclua.Safety.Core.{Core, core, On, IsFrame}
use dpscalclua.Safety.Steps.{heap_rules, Keeps-spawn}
use dpscalclua.Safety.Functions.{script_rules}

module _ {D V L : Type 0} ⦃d : Double D⦄ (env : Env D V L) {P : Core D → Type 0}
    (F : IsFrame P) where
  Keeps-start_cast : (s : ℕ) (u : CreatureRef) → Keeps (On P) (start_cast {L = L} env s u)
  unfolding start_cast new_spell_event
  Keeps-start_cast s u = search (heap_rules, Keeps-spawn F)

  Keeps-start_aura :
      (a : ℕ) (u : CreatureRef) (stacks fade : ℕ) (b : Bool)
      → Keeps (On P) (start_aura {L = L} env a u stacks fade b)
  unfolding start_aura new_aura_event
  Keeps-start_aura a u stacks fade b = search (heap_rules, Keeps-spawn F)

  Keeps-new_creature_object :
      (f : World D L → List Creature)
      → Keeps (On P) (modify (λ w. record w { next_addr = suc w.next_addr; creatures = f w }))
  unfolding modify
  Keeps-new_creature_object f = record { at = λ w h. record { holds = F.bumps (core w) h.holds } }

  pub Keeps-lua_target_create : (vs : List V) → Keeps (On P) (lua_target_create {L = L} env vs)
  unfolding lua_target_create
  Keeps-lua_target_create vs = search (script_rules, Keeps-new_creature_object) depth 30

  pub Keeps-lua_target_destroy : (vs : List V) → Keeps (On P) (lua_target_destroy {L = L} env vs)
  unfolding lua_target_destroy
  Keeps-lua_target_destroy vs = search (script_rules) depth 30

  pub Keeps-lua_cast_spell_by_name :
      (vs : List V) → Keeps (On P) (lua_cast_spell_by_name {L = L} env vs)
  unfolding lua_cast_spell_by_name
  Keeps-lua_cast_spell_by_name vs = search (script_rules, Keeps-start_cast) depth 30

  pub Keeps-lua_unit_apply_aura : (vs : List V) → Keeps (On P) (lua_unit_apply_aura {L = L} env vs)
  unfolding lua_unit_apply_aura
  Keeps-lua_unit_apply_aura vs = search (script_rules, Keeps-start_aura) depth 30

  pub Keeps-lua_unit_aura_applied :
      (vs : List V) → Keeps (On P) (lua_unit_aura_applied {L = L} env vs)
  unfolding lua_unit_aura_applied
  Keeps-lua_unit_aura_applied vs = search (script_rules) depth 30

  pub Keeps-lua_get_game_time : (vs : List V) → Keeps (On P) (lua_get_game_time {L = L} env vs)
  unfolding lua_get_game_time
  Keeps-lua_get_game_time vs = search (script_rules) depth 30

  pub Keeps-lua_finalize_calculation :
      (vs : List V) → Keeps (On P) (lua_finalize_calculation {L = L} env vs)
  unfolding lua_finalize_calculation ready_exit
  Keeps-lua_finalize_calculation vs = search (script_rules) depth 30
