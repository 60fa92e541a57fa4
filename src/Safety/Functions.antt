-- ===== src/Safety/Functions.antt =====
-- The functions of `DPSCalc/LuaIntergration.cpp`, and with them every routine, keep a frame.
use dpscalclua.Base.{ℕ, String, Bool, List}
use dpscalclua.Double.{Double}
use dpscalclua.Global.{
  PlayerPercentage, crit_percentage, hit_percentage, haste_percentage, other_percentage,
}
use dpscalclua.Aura.{Aura}
use dpscalclua.Store.{World, M, ◌>>=◌}
use dpscalclua.Script.{Env, LuaApi, Reply}
use dpscalclua.Lua.Args.{need_string, need_number, need_integer, need_boolean, with_player}
use dpscalclua.Lua.Auras.{register_aura}
use dpscalclua.Lua.Auras.{
  lua_aura_add, lua_aura_name_to_id, lua_aura_id_to_name, lua_aura_enable_crit,
  lua_aura_disable_crit, lua_aura_enable_haste, lua_aura_disable_haste, lua_aura_get_school,
  lua_aura_set_sp_percentage_per_tick,
}
use dpscalclua.Lua.Spells.{
  lua_spell_add, lua_spell_name_to_id, lua_spell_id_to_name, lua_spell_get_cooldown,
  lua_spell_get_school, lua_spell_set_sp_percentage,
}
use dpscalclua.Lua.PlayerStats.{
  lua_player_add_stats, lua_player_get_stats, lua_player_add_stats_multiplier, lua_player_set_stats,
}
use dpscalclua.Lua.Casting.{
  lua_player_get_percentage, percentage_value, lua_player_get_spell_cast_time,
  lua_player_get_spell_cooldown, lua_player_spell_is_available, lua_player_is_idle,
  lua_stop_casting, lua_player_sleep, lua_player_rating_to_percentage,
  lua_player_percentage_to_rating, lua_player_set_crit_bonus,
}
use dpscalclua.Safety.Meets.{Keeps}
use dpscalclua.Safety.Core.{Core, core, On, IsFrame, frame_rules}
use dpscalclua.Safety.Steps.{heap_rules}

module _ {D V L : Type 0} {P : Core D → Type 0} (api : LuaApi V D) where
  pub Keeps-need_string :
      (vs : List V) (i : ℕ) (rest : String → M (World D L) (Reply D))
      → ((x : String) → Keeps (On P) (rest x))
      → Keeps (On P) (need_string api vs i rest)
  unfolding need_string
  Keeps-need_string vs i rest k = search frame_rules

  pub Keeps-need_number :
      (vs : List V) (i : ℕ) (rest : D → M (World D L) (Reply D))
      → ((x : D) → Keeps (On P) (rest x))
      → Keeps (On P) (need_number api vs i rest)
  unfolding need_number
  Keeps-need_number vs i rest k = search frame_rules

  pub Keeps-need_integer :
      (vs : List V) (i : ℕ) (rest : ℕ → M (World D L) (Reply D))
      → ((x : ℕ) → Keeps (On P) (rest x))
      → Keeps (On P) (need_integer api vs i rest)
  unfolding need_integer
  Keeps-need_integer vs i rest k = search frame_rules

  pub Keeps-need_boolean :
      (vs : List V) (i : ℕ) (rest : Bool → M (World D L) (Reply D))
      → ((x : Bool) → Keeps (On P) (rest x))
      → Keeps (On P) (need_boolean api vs i rest)
  unfolding need_boolean
  Keeps-need_boolean vs i rest k = search frame_rules

module _ {D L : Type 0} {P : Core D → Type 0} where
  pub Keeps-with_player :
      {A : Type 0} (k : M (World D L) A) → Keeps (On P) k → Keeps (On P) (with_player k)
  unfolding with_player
  Keeps-with_player k h = search frame_rules

pub ruleset script_rules = (
  heap_rules, Keeps-need_string, Keeps-need_number, Keeps-need_integer, Keeps-need_boolean,
  Keeps-with_player,
)

module _ {D V L : Type 0} ⦃d : Double D⦄ (env : Env D V L) {P : Core D → Type 0}
    (F : IsFrame P) where
  Keeps-register_aura :
      (make : Aura D → ℕ → ℕ → Aura D) → Keeps (On P) (register_aura {L = L} env make)
  unfolding register_aura ◌>>=◌
  Keeps-register_aura make = record { at = λ w h. record { holds = F.bumps (core w) h.holds } }

  pub Keeps-lua_aura_add : (vs : List V) → Keeps (On P) (lua_aura_add {L = L} env vs)
  unfolding lua_aura_add
  Keeps-lua_aura_add vs = search (script_rules, Keeps-register_aura) depth 30

  pub Keeps-lua_aura_name_to_id : (vs : List V) → Keeps (On P) (lua_aura_name_to_id {L = L} env vs)
  unfolding lua_aura_name_to_id
  Keeps-lua_aura_name_to_id vs = search script_rules depth 30

  pub Keeps-lua_aura_id_to_name : (vs : List V) → Keeps (On P) (lua_aura_id_to_name {L = L} env vs)
  unfolding lua_aura_id_to_name
  Keeps-lua_aura_id_to_name vs = search script_rules depth 30

  pub Keeps-lua_aura_enable_crit :
      (vs : List V) → Keeps (On P) (lua_aura_enable_crit {L = L} env vs)
  unfolding lua_aura_enable_crit
  Keeps-lua_aura_enable_crit vs = search script_rules depth 30

  pub Keeps-lua_aura_disable_crit :
      (vs : List V) → Keeps (On P) (lua_aura_disable_crit {L = L} env vs)
  unfolding lua_aura_disable_crit
  Keeps-lua_aura_disable_crit vs = search script_rules depth 30

  pub Keeps-lua_aura_enable_haste :
      (vs : List V) → Keeps (On P) (lua_aura_enable_haste {L = L} env vs)
  unfolding lua_aura_enable_haste
  Keeps-lua_aura_enable_haste vs = search script_rules depth 30

  pub Keeps-lua_aura_disable_haste :
      (vs : List V) → Keeps (On P) (lua_aura_disable_haste {L = L} env vs)
  unfolding lua_aura_disable_haste
  Keeps-lua_aura_disable_haste vs = search script_rules depth 30

  pub Keeps-lua_aura_get_school : (vs : List V) → Keeps (On P) (lua_aura_get_school {L = L} env vs)
  unfolding lua_aura_get_school
  Keeps-lua_aura_get_school vs = search script_rules depth 30

  pub Keeps-lua_aura_set_sp_percentage_per_tick :
      (vs : List V) → Keeps (On P) (lua_aura_set_sp_percentage_per_tick {L = L} env vs)
  unfolding lua_aura_set_sp_percentage_per_tick
  Keeps-lua_aura_set_sp_percentage_per_tick vs = search script_rules depth 30

  pub Keeps-lua_spell_add : (vs : List V) → Keeps (On P) (lua_spell_add {L = L} env vs)
  unfolding lua_spell_add
  Keeps-lua_spell_add vs = search script_rules depth 30

  pub Keeps-lua_spell_name_to_id :
      (vs : List V) → Keeps (On P) (lua_spell_name_to_id {L = L} env vs)
  unfolding lua_spell_name_to_id
  Keeps-lua_spell_name_to_id vs = search script_rules depth 30

  pub Keeps-lua_spell_id_to_name :
      (vs : List V) → Keeps (On P) (lua_spell_id_to_name {L = L} env vs)
  unfolding lua_spell_id_to_name
  Keeps-lua_spell_id_to_name vs = search script_rules depth 30

  pub Keeps-lua_spell_get_cooldown :
      (vs : List V) → Keeps (On P) (lua_spell_get_cooldown {L = L} env vs)
  unfolding lua_spell_get_cooldown
  Keeps-lua_spell_get_cooldown vs = search script_rules depth 30

  pub Keeps-lua_spell_get_school :
      (vs : List V) → Keeps (On P) (lua_spell_get_school {L = L} env vs)
  unfolding lua_spell_get_school
  Keeps-lua_spell_get_school vs = search script_rules depth 30

  pub Keeps-lua_spell_set_sp_percentage :
      (vs : List V) → Keeps (On P) (lua_spell_set_sp_percentage {L = L} env vs)
  unfolding lua_spell_set_sp_percentage
  Keeps-lua_spell_set_sp_percentage vs = search script_rules depth 30

  pub Keeps-lua_player_add_stats :
      (vs : List V) → Keeps (On P) (lua_player_add_stats {L = L} env vs)
  unfolding lua_player_add_stats
  Keeps-lua_player_add_stats vs = search script_rules depth 30

  pub Keeps-lua_player_get_stats :
      (vs : List V) → Keeps (On P) (lua_player_get_stats {L = L} env vs)
  unfolding lua_player_get_stats
  Keeps-lua_player_get_stats vs = search script_rules depth 30

  pub Keeps-lua_player_add_stats_multiplier :
      (vs : List V) → Keeps (On P) (lua_player_add_stats_multiplier {L = L} env vs)
  unfolding lua_player_add_stats_multiplier
  Keeps-lua_player_add_stats_multiplier vs = search script_rules depth 30

  pub Keeps-lua_player_set_stats :
      (vs : List V) → Keeps (On P) (lua_player_set_stats {L = L} env vs)
  unfolding lua_player_set_stats
  Keeps-lua_player_set_stats vs = search script_rules depth 30

  Keeps-percentage_value : (k : PlayerPercentage) → Keeps (On P) (percentage_value {L = L} env k)
  unfolding percentage_value
  Keeps-percentage_value crit_percentage = search script_rules
  Keeps-percentage_value hit_percentage = search script_rules
  Keeps-percentage_value haste_percentage = search script_rules
  Keeps-percentage_value other_percentage = search script_rules

  pub Keeps-lua_player_get_percentage :
      (vs : List V) → Keeps (On P) (lua_player_get_percentage {L = L} env vs)
  unfolding lua_player_get_percentage
  Keeps-lua_player_get_percentage vs = search (script_rules, Keeps-percentage_value) depth 30

  pub Keeps-lua_player_get_spell_cast_time :
      (vs : List V) → Keeps (On P) (lua_player_get_spell_cast_time {L = L} env vs)
  unfolding lua_player_get_spell_cast_time
  Keeps-lua_player_get_spell_cast_time vs = search script_rules depth 30

  pub Keeps-lua_player_get_spell_cooldown :
      (vs : List V) → Keeps (On P) (lua_player_get_spell_cooldown {L = L} env vs)
  unfolding lua_player_get_spell_cooldown
  Keeps-lua_player_get_spell_cooldown vs = search script_rules depth 30

  pub Keeps-lua_player_spell_is_available :
      (vs : List V) → Keeps (On P) (lua_player_spell_is_available {L = L} env vs)
  unfolding lua_player_spell_is_available
  Keeps-lua_player_spell_is_available vs = search script_rules depth 30

  pub Keeps-lua_player_is_idle : (vs : List V) → Keeps (On P) (lua_player_is_idle {L = L} env vs)
  unfolding lua_player_is_idle
  Keeps-lua_player_is_idle vs = search script_rules depth 30

  pub Keeps-lua_stop_casting : (vs : List V) → Keeps (On P) (lua_stop_casting {L = L} env vs)
  unfolding lua_stop_casting
  Keeps-lua_stop_casting vs = search script_rules depth 30

  pub Keeps-lua_player_sleep : (vs : List V) → Keeps (On P) (lua_player_sleep {L = L} env vs)
  unfolding lua_player_sleep
  Keeps-lua_player_sleep vs = search script_rules depth 30

  pub Keeps-lua_player_rating_to_percentage :
      (vs : List V) → Keeps (On P) (lua_player_rating_to_percentage {L = L} env vs)
  unfolding lua_player_rating_to_percentage
  Keeps-lua_player_rating_to_percentage vs = search script_rules depth 30

  pub Keeps-lua_player_percentage_to_rating :
      (vs : List V) → Keeps (On P) (lua_player_percentage_to_rating {L = L} env vs)
  unfolding lua_player_percentage_to_rating
  Keeps-lua_player_percentage_to_rating vs = search script_rules depth 30

  pub Keeps-lua_player_set_crit_bonus :
      (vs : List V) → Keeps (On P) (lua_player_set_crit_bonus {L = L} env vs)
  unfolding lua_player_set_crit_bonus
  Keeps-lua_player_set_crit_bonus vs = search script_rules depth 30
