-- ===== src/Errors/Functions.antt =====
-- Each function of `DPSCalc/LuaIntergration.cpp` raises errors only before it writes.
use dpscalclua.Base.{ℕ, List, false}
use dpscalclua.Double.{Double}
use dpscalclua.Global.{
  PlayerPercentage, crit_percentage, hit_percentage, haste_percentage, other_percentage, CombatStat,
  cs_damage, cs_crit_percentage, cs_hit_percentage, cs_cast_time,
}
use dpscalclua.Event.{Event}
use dpscalclua.Store.{World}
use dpscalclua.Script.{Env}
use dpscalclua.Lua.Auras.{
  register_aura, lua_aura_add, lua_aura_name_to_id, lua_aura_id_to_name, lua_aura_enable_crit,
  lua_aura_disable_crit, lua_aura_enable_haste, lua_aura_disable_haste, lua_aura_get_school,
  lua_aura_set_sp_percentage_per_tick,
}
use dpscalclua.Lua.Spells.{
  lua_spell_add, lua_spell_name_to_id, lua_spell_id_to_name, lua_spell_get_cooldown,
  lua_spell_get_school, lua_spell_set_sp_percentage,
}
use dpscalclua.Lua.PlayerStats.{
  lua_player_add_stats, lua_player_get_stats, lua_player_add_stats_multiplier, lua_player_set_stats,
}
use dpscalclua.Lua.Casting.{
  percentage_value, lua_player_get_percentage, lua_player_get_spell_cast_time,
  lua_player_get_spell_cooldown, lua_player_spell_is_available, lua_player_is_idle,
  lua_stop_casting, lua_player_sleep, lua_player_rating_to_percentage,
  lua_player_percentage_to_rating, lua_player_set_crit_bonus,
}
use dpscalclua.Lua.Units.{
  start_cast, start_aura, lua_target_create, lua_target_destroy, lua_cast_spell_by_name,
  lua_unit_apply_aura, lua_unit_aura_applied, lua_get_game_time, lua_finalize_calculation,
}
use dpscalclua.Lua.EventStats.{
  StatChange, changed, out_of_bounds, too_large, refused, apply_change, change_current_event,
  get_event_stats, lua_event_add_stats, lua_event_get_stats,
}
use dpscalclua.Errors.Rules.{Raises, raise_rules}
use dpscalclua.Errors.Arguments.{argument_rules}

module _ {D V L : Type 0} ⦃d : Double D⦄ (env : Env D V L) {w : World D L} where
  Raises-apply_change : (e : Event D) (x : StatChange D) → Raises w false (apply_change e x)
  unfolding apply_change
  Raises-apply_change e (changed y) = search raise_rules
  Raises-apply_change e out_of_bounds = search raise_rules
  Raises-apply_change e too_large = search raise_rules
  Raises-apply_change e refused = search raise_rules

  Raises-change_current_event :
      (k : ℕ) (v : D) (i : ℕ) → Raises w false (change_current_event k v i)
  unfolding change_current_event
  Raises-change_current_event k v i = search (argument_rules, Raises-apply_change) depth 12

  Raises-get_event_stats : (k : CombatStat) (e : Event D) → Raises w false (get_event_stats env k e)
  unfolding get_event_stats
  Raises-get_event_stats cs_damage e = search raise_rules
  Raises-get_event_stats cs_crit_percentage e = search raise_rules
  Raises-get_event_stats cs_hit_percentage e = search raise_rules
  Raises-get_event_stats cs_cast_time e = search raise_rules
  Raises-get_event_stats _ e = search raise_rules

  Raises-percentage_value : (k : PlayerPercentage) → Raises w false (percentage_value env k)
  unfolding percentage_value
  Raises-percentage_value crit_percentage = search raise_rules
  Raises-percentage_value hit_percentage = search raise_rules
  Raises-percentage_value haste_percentage = search raise_rules
  Raises-percentage_value other_percentage = search raise_rules

  pub Raises-lua_aura_add : (vs : List V) → Raises w false (lua_aura_add env vs)
  unfolding lua_aura_add register_aura
  Raises-lua_aura_add vs = search argument_rules depth 30

  pub Raises-lua_aura_name_to_id : (vs : List V) → Raises w false (lua_aura_name_to_id env vs)
  unfolding lua_aura_name_to_id
  Raises-lua_aura_name_to_id vs = search argument_rules depth 30

  pub Raises-lua_aura_id_to_name : (vs : List V) → Raises w false (lua_aura_id_to_name env vs)
  unfolding lua_aura_id_to_name
  Raises-lua_aura_id_to_name vs = search argument_rules depth 30

  pub Raises-lua_aura_enable_crit : (vs : List V) → Raises w false (lua_aura_enable_crit env vs)
  unfolding lua_aura_enable_crit
  Raises-lua_aura_enable_crit vs = search argument_rules depth 30

  pub Raises-lua_aura_disable_crit : (vs : List V) → Raises w false (lua_aura_disable_crit env vs)
  unfolding lua_aura_disable_crit
  Raises-lua_aura_disable_crit vs = search argument_rules depth 30

  pub Raises-lua_aura_enable_haste : (vs : List V) → Raises w false (lua_aura_enable_haste env vs)
  unfolding lua_aura_enable_haste
  Raises-lua_aura_enable_haste vs = search argument_rules depth 30

  pub Raises-lua_aura_disable_haste : (vs : List V) → Raises w false (lua_aura_disable_haste env vs)
  unfolding lua_aura_disable_haste
  Raises-lua_aura_disable_haste vs = search argument_rules depth 30

  pub Raises-lua_aura_get_school : (vs : List V) → Raises w false (lua_aura_get_school env vs)
  unfolding lua_aura_get_school
  Raises-lua_aura_get_school vs = search argument_rules depth 30

  pub Raises-lua_aura_set_sp_percentage_per_tick :
      (vs : List V) → Raises w false (lua_aura_set_sp_percentage_per_tick env vs)
  unfolding lua_aura_set_sp_percentage_per_tick
  Raises-lua_aura_set_sp_percentage_per_tick vs = search argument_rules depth 30

  pub Raises-lua_spell_add : (vs : List V) → Raises w false (lua_spell_add env vs)
  unfolding lua_spell_add
  Raises-lua_spell_add vs = search argument_rules depth 30

  pub Raises-lua_spell_name_to_id : (vs : List V) → Raises w false (lua_spell_name_to_id env vs)
  unfolding lua_spell_name_to_id
  Raises-lua_spell_name_to_id vs = search argument_rules depth 30

  pub Raises-lua_spell_id_to_name : (vs : List V) → Raises w false (lua_spell_id_to_name env vs)
  unfolding lua_spell_id_to_name
  Raises-lua_spell_id_to_name vs = search argument_rules depth 30

  pub Raises-lua_spell_get_cooldown : (vs : List V) → Raises w false (lua_spell_get_cooldown env vs)
  unfolding lua_spell_get_cooldown
  Raises-lua_spell_get_cooldown vs = search argument_rules depth 30

  pub Raises-lua_spell_get_school : (vs : List V) → Raises w false (lua_spell_get_school env vs)
  unfolding lua_spell_get_school
  Raises-lua_spell_get_school vs = search argument_rules depth 30

  pub Raises-lua_spell_set_sp_percentage :
      (vs : List V) → Raises w false (lua_spell_set_sp_percentage env vs)
  unfolding lua_spell_set_sp_percentage
  Raises-lua_spell_set_sp_percentage vs = search argument_rules depth 30

  pub Raises-lua_player_add_stats : (vs : List V) → Raises w false (lua_player_add_stats env vs)
  unfolding lua_player_add_stats
  Raises-lua_player_add_stats vs = search argument_rules depth 30

  pub Raises-lua_player_get_stats : (vs : List V) → Raises w false (lua_player_get_stats env vs)
  unfolding lua_player_get_stats
  Raises-lua_player_get_stats vs = search argument_rules depth 30

  pub Raises-lua_player_add_stats_multiplier :
      (vs : List V) → Raises w false (lua_player_add_stats_multiplier env vs)
  unfolding lua_player_add_stats_multiplier
  Raises-lua_player_add_stats_multiplier vs = search argument_rules depth 30

  pub Raises-lua_player_set_stats : (vs : List V) → Raises w false (lua_player_set_stats env vs)
  unfolding lua_player_set_stats
  Raises-lua_player_set_stats vs = search argument_rules depth 30

  pub Raises-lua_player_get_percentage :
      (vs : List V) → Raises w false (lua_player_get_percentage env vs)
  unfolding lua_player_get_percentage
  Raises-lua_player_get_percentage vs = search (argument_rules, Raises-percentage_value) depth 30

  pub Raises-lua_player_get_spell_cast_time :
      (vs : List V) → Raises w false (lua_player_get_spell_cast_time env vs)
  unfolding lua_player_get_spell_cast_time
  Raises-lua_player_get_spell_cast_time vs = search argument_rules depth 30

  pub Raises-lua_player_get_spell_cooldown :
      (vs : List V) → Raises w false (lua_player_get_spell_cooldown env vs)
  unfolding lua_player_get_spell_cooldown
  Raises-lua_player_get_spell_cooldown vs = search argument_rules depth 30

  pub Raises-lua_player_spell_is_available :
      (vs : List V) → Raises w false (lua_player_spell_is_available env vs)
  unfolding lua_player_spell_is_available
  Raises-lua_player_spell_is_available vs = search argument_rules depth 30

  pub Raises-lua_player_is_idle : (vs : List V) → Raises w false (lua_player_is_idle env vs)
  unfolding lua_player_is_idle
  Raises-lua_player_is_idle vs = search argument_rules depth 30

  pub Raises-lua_stop_casting : (vs : List V) → Raises w false (lua_stop_casting env vs)
  unfolding lua_stop_casting
  Raises-lua_stop_casting vs = search argument_rules depth 30

  pub Raises-lua_player_sleep : (vs : List V) → Raises w false (lua_player_sleep env vs)
  unfolding lua_player_sleep
  Raises-lua_player_sleep vs = search argument_rules depth 30

  pub Raises-lua_player_rating_to_percentage :
      (vs : List V) → Raises w false (lua_player_rating_to_percentage env vs)
  unfolding lua_player_rating_to_percentage
  Raises-lua_player_rating_to_percentage vs = search argument_rules depth 30

  pub Raises-lua_player_percentage_to_rating :
      (vs : List V) → Raises w false (lua_player_percentage_to_rating env vs)
  unfolding lua_player_percentage_to_rating
  Raises-lua_player_percentage_to_rating vs = search argument_rules depth 30

  pub Raises-lua_player_set_crit_bonus :
      (vs : List V) → Raises w false (lua_player_set_crit_bonus env vs)
  unfolding lua_player_set_crit_bonus
  Raises-lua_player_set_crit_bonus vs = search argument_rules depth 30

  pub Raises-lua_target_create : (vs : List V) → Raises w false (lua_target_create env vs)
  unfolding lua_target_create
  Raises-lua_target_create vs = search argument_rules depth 30

  pub Raises-lua_target_destroy : (vs : List V) → Raises w false (lua_target_destroy env vs)
  unfolding lua_target_destroy
  Raises-lua_target_destroy vs = search argument_rules depth 30

  pub Raises-lua_cast_spell_by_name : (vs : List V) → Raises w false (lua_cast_spell_by_name env vs)
  unfolding lua_cast_spell_by_name start_cast
  Raises-lua_cast_spell_by_name vs = search argument_rules depth 30

  pub Raises-lua_unit_apply_aura : (vs : List V) → Raises w false (lua_unit_apply_aura env vs)
  unfolding lua_unit_apply_aura start_aura
  Raises-lua_unit_apply_aura vs = search argument_rules depth 30

  pub Raises-lua_unit_aura_applied : (vs : List V) → Raises w false (lua_unit_aura_applied env vs)
  unfolding lua_unit_aura_applied
  Raises-lua_unit_aura_applied vs = search argument_rules depth 30

  pub Raises-lua_get_game_time : (vs : List V) → Raises w false (lua_get_game_time env vs)
  unfolding lua_get_game_time
  Raises-lua_get_game_time vs = search argument_rules depth 30

  pub Raises-lua_finalize_calculation :
      (vs : List V) → Raises w false (lua_finalize_calculation env vs)
  unfolding lua_finalize_calculation
  Raises-lua_finalize_calculation vs = search argument_rules depth 30

  pub Raises-lua_event_add_stats : (vs : List V) → Raises w false (lua_event_add_stats env vs)
  unfolding lua_event_add_stats
  Raises-lua_event_add_stats vs = search (argument_rules, Raises-change_current_event) depth 30

  pub Raises-lua_event_get_stats : (vs : List V) → Raises w false (lua_event_get_stats env vs)
  unfolding lua_event_get_stats
  Raises-lua_event_get_stats vs = search (argument_rules, Raises-get_event_stats) depth 30
