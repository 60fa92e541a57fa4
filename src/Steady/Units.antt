-- ===== src/Steady/Units.antt =====
-- The functions on the current event, on units and on casts leave the clock alone.
use dpscalclua.Base.{ℕ, List}
use dpscalclua.Double.{Double}
use dpscalclua.Global.{CombatStat, cs_damage, cs_crit_percentage, cs_hit_percentage, cs_cast_time}
use dpscalclua.Event.{Event, Body, of_spell, of_aura, SpellPart, AuraPart}
use dpscalclua.Script.{Env}
use dpscalclua.Combat.Chance.{
  event_crit_chance, event_hit_chance, event_cast_time, event_crit_chance_of, event_hit_chance_of,
  event_cast_time_of,
}
use dpscalclua.Combat.Damage.{
  event_damage, event_damage_of, aura_power_factor, spell_get_damage, aura_get_damage,
}
use dpscalclua.Lua.EventStats.{
  StatChange, changed, out_of_bounds, too_large, refused, apply_change, change_current_event,
  get_event_stats, lua_event_add_stats, lua_event_get_stats,
}
use dpscalclua.Steady.Rules.{Stays}
use dpscalclua.Steady.Steps.{steady_rules}
use dpscalclua.Steady.Functions.{steady_script_rules}
use dpscalclua.Base.{ℕ, Bool, List}
use dpscalclua.Double.{Double}
use dpscalclua.Event.{CreatureRef, new_spell_event, new_aura_event}
use dpscalclua.EventSystem.{ready_exit}
use dpscalclua.Script.{Env}
use dpscalclua.Lua.Units.{
  start_cast, start_aura, lua_target_create, lua_target_destroy, lua_cast_spell_by_name,
  lua_unit_apply_aura, lua_unit_aura_applied, lua_get_game_time, lua_finalize_calculation,
}
use dpscalclua.Steady.Steps.{steady_rules, Stays-spawn}
use dpscalclua.Steady.Functions.{steady_script_rules}

module _ {D V L : Type 0} ⦃d : Double D⦄ (env : Env D V L) where
  pub Stays-spell_get_damage :
      (e : Event D) (s : SpellPart) → Stays (spell_get_damage {L = L} env e s)
  unfolding spell_get_damage
  Stays-spell_get_damage e s = search steady_rules depth 12

  pub Stays-aura_get_damage : (e : Event D) (a : AuraPart) → Stays (aura_get_damage {L = L} env e a)
  unfolding aura_get_damage aura_power_factor
  Stays-aura_get_damage e a = search steady_rules depth 20

  Stays-event_damage_of : (e : Event D) (b : Body) → Stays (event_damage_of {L = L} env e b)
  unfolding event_damage_of
  Stays-event_damage_of e (of_spell s) = Stays-spell_get_damage e s
  Stays-event_damage_of e (of_aura a) = Stays-aura_get_damage e a

  Stays-event_crit_chance_of : (e : Event D) (b : Body) → Stays (event_crit_chance_of {L = L} e b)
  unfolding event_crit_chance_of
  Stays-event_crit_chance_of e (of_spell s) = search steady_rules
  Stays-event_crit_chance_of e (of_aura a) = search steady_rules

  Stays-event_hit_chance_of : (e : Event D) (b : Body) → Stays (event_hit_chance_of {L = L} e b)
  unfolding event_hit_chance_of
  Stays-event_hit_chance_of e (of_spell s) = search steady_rules
  Stays-event_hit_chance_of e (of_aura a) = search steady_rules

  Stays-event_cast_time_of : (e : Event D) (b : Body) → Stays (event_cast_time_of {L = L} e b)
  unfolding event_cast_time_of
  Stays-event_cast_time_of e (of_spell s) = search steady_rules
  Stays-event_cast_time_of e (of_aura a) = search steady_rules

  Stays-get_event_stats : (k : CombatStat) (e : Event D) → Stays (get_event_stats {L = L} env k e)
  unfolding get_event_stats event_damage event_crit_chance event_hit_chance event_cast_time
  Stays-get_event_stats cs_damage e = search (steady_rules, Stays-event_damage_of)
  Stays-get_event_stats cs_crit_percentage e = search (steady_rules, Stays-event_crit_chance_of)
  Stays-get_event_stats cs_hit_percentage e = search (steady_rules, Stays-event_hit_chance_of)
  Stays-get_event_stats cs_cast_time e = search (steady_rules, Stays-event_cast_time_of)
  Stays-get_event_stats _ e = search steady_rules

module _ {D V L : Type 0} ⦃d : Double D⦄ (env : Env D V L) where
  Stays-apply_change : (e : Event D) (x : StatChange D) → Stays (apply_change {L = L} e x)
  unfolding apply_change
  Stays-apply_change e (changed y) = search steady_rules
  Stays-apply_change e out_of_bounds = search steady_rules
  Stays-apply_change e too_large = search steady_rules
  Stays-apply_change e refused = search steady_rules

  Stays-change_current_event : (k : ℕ) (v : D) (i : ℕ) → Stays (change_current_event {L = L} k v i)
  unfolding change_current_event
  Stays-change_current_event k v i = search (steady_script_rules, Stays-apply_change) depth 12

  pub Stays-lua_event_add_stats : (vs : List V) → Stays (lua_event_add_stats {L = L} env vs)
  unfolding lua_event_add_stats
  Stays-lua_event_add_stats vs = search (steady_script_rules, Stays-change_current_event) depth 12

  pub Stays-lua_event_get_stats : (vs : List V) → Stays (lua_event_get_stats {L = L} env vs)
  unfolding lua_event_get_stats
  Stays-lua_event_get_stats vs = search (steady_script_rules, Stays-get_event_stats) depth 12

module _ {D V L : Type 0} ⦃d : Double D⦄ (env : Env D V L) where
  Stays-start_cast : (s : ℕ) (u : CreatureRef) → Stays (start_cast {L = L} env s u)
  unfolding start_cast new_spell_event
  Stays-start_cast s u = search (steady_rules, Stays-spawn)

  Stays-start_aura :
      (a : ℕ) (u : CreatureRef) (stacks fade : ℕ) (b : Bool)
      → Stays (start_aura {L = L} env a u stacks fade b)
  unfolding start_aura new_aura_event
  Stays-start_aura a u stacks fade b = search (steady_rules, Stays-spawn)

  pub Stays-lua_target_create : (vs : List V) → Stays (lua_target_create {L = L} env vs)
  unfolding lua_target_create
  Stays-lua_target_create vs = search (steady_script_rules) depth 30

  pub Stays-lua_target_destroy : (vs : List V) → Stays (lua_target_destroy {L = L} env vs)
  unfolding lua_target_destroy
  Stays-lua_target_destroy vs = search (steady_script_rules) depth 30

  pub Stays-lua_cast_spell_by_name : (vs : List V) → Stays (lua_cast_spell_by_name {L = L} env vs)
  unfolding lua_cast_spell_by_name
  Stays-lua_cast_spell_by_name vs = search (steady_script_rules, Stays-start_cast) depth 30

  pub Stays-lua_unit_apply_aura : (vs : List V) → Stays (lua_unit_apply_aura {L = L} env vs)
  unfolding lua_unit_apply_aura
  Stays-lua_unit_apply_aura vs = search (steady_script_rules, Stays-start_aura) depth 30

  pub Stays-lua_unit_aura_applied : (vs : List V) → Stays (lua_unit_aura_applied {L = L} env vs)
  unfolding lua_unit_aura_applied
  Stays-lua_unit_aura_applied vs = search (steady_script_rules) depth 30

  pub Stays-lua_get_game_time : (vs : List V) → Stays (lua_get_game_time {L = L} env vs)
  unfolding lua_get_game_time
  Stays-lua_get_game_time vs = search (steady_script_rules) depth 30

  pub Stays-lua_finalize_calculation :
      (vs : List V) → Stays (lua_finalize_calculation {L = L} env vs)
  unfolding lua_finalize_calculation ready_exit
  Stays-lua_finalize_calculation vs = search (steady_script_rules) depth 30
