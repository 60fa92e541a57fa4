-- ===== src/Steady/Functions.antt =====
-- The functions of `DPSCalc/LuaIntergration.cpp` leave the clock alone.
use dpscalclua.Base.{ℕ, String, Bool, List}
use dpscalclua.Double.{Double}
use dpscalclua.Global.{
  PlayerPercentage, crit_percentage, hit_percentage, haste_percentage, other_percentage,
}
use dpscalclua.Aura.{Aura}
use dpscalclua.Store.{World, M}
use dpscalclua.Script.{Env, LuaApi, Reply}
use dpscalclua.Lua.Args.{need_string, need_number, need_integer, need_boolean, with_player}
use dpscalclua.Lua.Auras.{register_aura}
use dpscalclua.Lua.Auras.{
  lua_aura_add, lua_aura_name_to_id, lua_aura_id_to_name, lua_aura_enable_crit,
  lua_aura_disable_crit, lua_aura_enable_haste, lua_aura_disable_haste, lua_aura_get_school,
  lua_aura_set_sp_percentage_per_tick,
}
use dpscalclua.Lua.Spells.{
  lua_spell_add, lua_spell_name_to_id, lua_spell_id_to_name, lua_spell_get_cooldown,
  lua_spell_get_school, lua_spell_set_sp_percentage,
}
use dpscalclua.Lua.PlayerStats.{
  lua_player_add_stats, lua_player_get_stats, lua_player_add_stats_multiplier, lua_player_set_stats,
}
use dpscalclua.Lua.Casting.{
  lua_player_get_percentage, percentage_value, lua_player_get_spell_cast_time,
  lua_player_get_spell_cooldown, lua_player_spell_is_available, lua_player_is_idle,
  lua_stop_casting, lua_player_sleep, lua_player_rating_to_percentage,
  lua_player_percentage_to_rating, lua_player_set_crit_bonus,
}
use dpscalclua.Steady.Rules.{Stays, stay_rules}
use dpscalclua.Steady.Steps.{steady_rules}

module _ {D V L : Type 0} (api : LuaApi V D) where
  pub Stays-need_string :
      (vs : List V) (i : ℕ) (rest : String → M (World D L) (Reply D))
      → ((x : String) → Stays (rest x))
      → Stays (need_string api vs i rest)
  unfolding need_string
  Stays-need_string vs i rest k = search stay_rules

  pub Stays-need_number :
      (vs : List V) (i : ℕ) (rest : D → M (World D L) (Reply D))
      → ((x : D) → Stays (rest x))
      → Stays (need_number api vs i rest)
  unfolding need_number
  Stays-need_number vs i rest k = search stay_rules

  pub Stays-need_integer :
      (vs : List V) (i : ℕ) (rest : ℕ → M (World D L) (Reply D))
      → ((x : ℕ) → Stays (rest x))
      → Stays (need_integer api vs i rest)
  unfolding need_integer
  Stays-need_integer vs i rest k = search stay_rules

  pub Stays-need_boolean :
      (vs : List V) (i : ℕ) (rest : Bool → M (World D L) (Reply D))
      → ((x : Bool) → Stays (rest x))
      → Stays (need_boolean api vs i rest)
  unfolding need_boolean
  Stays-need_boolean vs i rest k = search stay_rules

module _ {D L : Type 0} where
  pub Stays-with_player : {A : Type 0} (k : M (World D L) A) → Stays k → Stays (with_player k)
  unfolding with_player
  Stays-with_player k h = search stay_rules

pub ruleset steady_script_rules = (
  steady_rules, Stays-need_string, Stays-need_number, Stays-need_integer, Stays-need_boolean,
  Stays-with_player,
)

module _ {D V L : Type 0} ⦃d : Double D⦄ (env : Env D V L) where
  Stays-register_aura : (make : Aura D → ℕ → ℕ → Aura D) → Stays (register_aura {L = L} env make)
  unfolding register_aura
  Stays-register_aura make = search steady_rules depth 12

  pub Stays-lua_aura_add : (vs : List V) → Stays (lua_aura_add {L = L} env vs)
  unfolding lua_aura_add
  Stays-lua_aura_add vs = search (steady_script_rules, Stays-register_aura) depth 30

  pub Stays-lua_aura_name_to_id : (vs : List V) → Stays (lua_aura_name_to_id {L = L} env vs)
  unfolding lua_aura_name_to_id
  Stays-lua_aura_name_to_id vs = search steady_script_rules depth 30

  pub Stays-lua_aura_id_to_name : (vs : List V) → Stays (lua_aura_id_to_name {L = L} env vs)
  unfolding lua_aura_id_to_name
  Stays-lua_aura_id_to_name vs = search steady_script_rules depth 30

  pub Stays-lua_aura_enable_crit : (vs : List V) → Stays (lua_aura_enable_crit {L = L} env vs)
  unfolding lua_aura_enable_crit
  Stays-lua_aura_enable_crit vs = search steady_script_rules depth 30

  pub Stays-lua_aura_disable_crit : (vs : List V) → Stays (lua_aura_disable_crit {L = L} env vs)
  unfolding lua_aura_disable_crit
  Stays-lua_aura_disable_crit vs = search steady_script_rules depth 30

  pub Stays-lua_aura_enable_haste : (vs : List V) → Stays (lua_aura_enable_haste {L = L} env vs)
  unfolding lua_aura_enable_haste
  Stays-lua_aura_enable_haste vs = search steady_script_rules depth 30

  pub Stays-lua_aura_disable_haste : (vs : List V) → Stays (lua_aura_disable_haste {L = L} env vs)
  unfolding lua_aura_disable_haste
  Stays-lua_aura_disable_haste vs = search steady_script_rules depth 30

  pub Stays-lua_aura_get_school : (vs : List V) → Stays (lua_aura_get_school {L = L} env vs)
  unfolding lua_aura_get_school
  Stays-lua_aura_get_school vs = search steady_script_rules depth 30

  pub Stays-lua_aura_set_sp_percentage_per_tick :
      (vs : List V) → Stays (lua_aura_set_sp_percentage_per_tick {L = L} env vs)
  unfolding lua_aura_set_sp_percentage_per_tick
  Stays-lua_aura_set_sp_percentage_per_tick vs = search steady_script_rules depth 30

  pub Stays-lua_spell_add : (vs : List V) → Stays (lua_spell_add {L = L} env vs)
  unfolding lua_spell_add
  Stays-lua_spell_add vs = search steady_script_rules depth 30

  pub Stays-lua_spell_name_to_id : (vs : List V) → Stays (lua_spell_name_to_id {L = L} env vs)
  unfolding lua_spell_name_to_id
  Stays-lua_spell_name_to_id vs = search steady_script_rules depth 30

  pub Stays-lua_spell_id_to_name : (vs : List V) → Stays (lua_spell_id_to_name {L = L} env vs)
  unfolding lua_spell_id_to_name
  Stays-lua_spell_id_to_name vs = search steady_script_rules depth 30

  pub Stays-lua_spell_get_cooldown : (vs : List V) → Stays (lua_spell_get_cooldown {L = L} env vs)
  unfolding lua_spell_get_cooldown
  Stays-lua_spell_get_cooldown vs = search steady_script_rules depth 30

  pub Stays-lua_spell_get_school : (vs : List V) → Stays (lua_spell_get_school {L = L} env vs)
  unfolding lua_spell_get_school
  Stays-lua_spell_get_school vs = search steady_script_rules depth 30

  pub Stays-lua_spell_set_sp_percentage :
      (vs : List V) → Stays (lua_spell_set_sp_percentage {L = L} env vs)
  unfolding lua_spell_set_sp_percentage
  Stays-lua_spell_set_sp_percentage vs = search steady_script_rules depth 30

  pub Stays-lua_player_add_stats : (vs : List V) → Stays (lua_player_add_stats {L = L} env vs)
  unfolding lua_player_add_stats
  Stays-lua_player_add_stats vs = search steady_script_rules depth 30

  pub Stays-lua_player_get_stats : (vs : List V) → Stays (lua_player_get_stats {L = L} env vs)
  unfolding lua_player_get_stats
  Stays-lua_player_get_stats vs = search steady_script_rules depth 30

  pub Stays-lua_player_add_stats_multiplier :
      (vs : List V) → Stays (lua_player_add_stats_multiplier {L = L} env vs)
  unfolding lua_player_add_stats_multiplier
  Stays-lua_player_add_stats_multiplier vs = search steady_script_rules depth 30

  pub Stays-lua_player_set_stats : (vs : List V) → Stays (lua_player_set_stats {L = L} env vs)
  unfolding lua_player_set_stats
  Stays-lua_player_set_stats vs = search steady_script_rules depth 30

  Stays-percentage_value : (k : PlayerPercentage) → Stays (percentage_value {L = L} env k)
  unfolding percentage_value
  Stays-percentage_value crit_percentage = search steady_script_rules
  Stays-percentage_value hit_percentage = search steady_script_rules
  Stays-percentage_value haste_percentage = search steady_script_rules
  Stays-percentage_value other_percentage = search steady_script_rules

  pub Stays-lua_player_get_percentage :
      (vs : List V) → Stays (lua_player_get_percentage {L = L} env vs)
  unfolding lua_player_get_percentage
  Stays-lua_player_get_percentage vs = search (steady_script_rules, Stays-percentage_value) depth 30

  pub Stays-lua_player_get_spell_cast_time :
      (vs : List V) → Stays (lua_player_get_spell_cast_time {L = L} env vs)
  unfolding lua_player_get_spell_cast_time
  Stays-lua_player_get_spell_cast_time vs = search steady_script_rules depth 30

  pub Stays-lua_player_get_spell_cooldown :
      (vs : List V) → Stays (lua_player_get_spell_cooldown {L = L} env vs)
  unfolding lua_player_get_spell_cooldown
  Stays-lua_player_get_spell_cooldown vs = search steady_script_rules depth 30

  pub Stays-lua_player_spell_is_available :
      (vs : List V) → Stays (lua_player_spell_is_available {L = L} env vs)
  unfolding lua_player_spell_is_available
  Stays-lua_player_spell_is_available vs = search steady_script_rules depth 30

  pub Stays-lua_player_is_idle : (vs : List V) → Stays (lua_player_is_idle {L = L} env vs)
  unfolding lua_player_is_idle
  Stays-lua_player_is_idle vs = search steady_script_rules depth 30

  pub Stays-lua_stop_casting : (vs : List V) → Stays (lua_stop_casting {L = L} env vs)
  unfolding lua_stop_casting
  Stays-lua_stop_casting vs = search steady_script_rules depth 30

  pub Stays-lua_player_sleep : (vs : List V) → Stays (lua_player_sleep {L = L} env vs)
  unfolding lua_player_sleep
  Stays-lua_player_sleep vs = search steady_script_rules depth 30

  pub Stays-lua_player_rating_to_percentage :
      (vs : List V) → Stays (lua_player_rating_to_percentage {L = L} env vs)
  unfolding lua_player_rating_to_percentage
  Stays-lua_player_rating_to_percentage vs = search steady_script_rules depth 30

  pub Stays-lua_player_percentage_to_rating :
      (vs : List V) → Stays (lua_player_percentage_to_rating {L = L} env vs)
  unfolding lua_player_percentage_to_rating
  Stays-lua_player_percentage_to_rating vs = search steady_script_rules depth 30

  pub Stays-lua_player_set_crit_bonus :
      (vs : List V) → Stays (lua_player_set_crit_bonus {L = L} env vs)
  unfolding lua_player_set_crit_bonus
  Stays-lua_player_set_crit_bonus vs = search steady_script_rules depth 30
