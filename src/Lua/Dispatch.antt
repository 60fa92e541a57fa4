-- ===== src/Lua/Dispatch.antt =====
-- What a routine does: the calls that it makes, dispatched to the functions that `Lua_Initialize`
-- registers, and `CallLuaFunction` of `DPSCalc/LuaIntergration.cpp`. An error that a routine does not
-- catch ends it, and `CallLuaFunction` ignores the status.
use dpscalclua.Base.{ℕ, Bool, List, none, some, ◌==◌, if◌then◌else◌}
use dpscalclua.Double.{Double}
use dpscalclua.Store.{World, M, done, fault, pure, get, ◌>>=◌}
use dpscalclua.Script.{
  Env, Fn, Hook, Prog, Reply, finish, call, fn_aura_add, fn_aura_name_to_id, fn_aura_id_to_name,
  fn_aura_enable_crit, fn_aura_enable_haste, fn_aura_disable_crit, fn_aura_disable_haste,
  fn_aura_get_school, fn_aura_set_sp_percentage_per_tick, fn_event_add_stats, fn_event_get_stats,
  fn_spell_add, fn_spell_name_to_id, fn_spell_id_to_name, fn_spell_get_cooldown,
  fn_spell_get_school, fn_spell_set_sp_percentage, fn_player_rating_to_percentage,
  fn_player_percentage_to_rating, fn_player_get_spell_cast_time, fn_player_get_spell_cooldown,
  fn_player_spell_is_available, fn_player_is_idle, fn_player_get_percentage, fn_player_sleep,
  fn_player_set_crit_bonus, fn_stop_casting, fn_player_get_stats, fn_player_set_stats,
  fn_player_add_stats_multiplier, fn_player_add_stats, fn_cast_spell_by_name, fn_unit_apply_aura,
  fn_unit_aura_applied, fn_target_create, fn_target_destroy, fn_get_game_time,
  fn_finalize_calculation,
}
use dpscalclua.Lua.Auras.{
  lua_aura_add, lua_aura_name_to_id, lua_aura_id_to_name, lua_aura_enable_crit,
  lua_aura_enable_haste, lua_aura_disable_crit, lua_aura_disable_haste, lua_aura_get_school,
  lua_aura_set_sp_percentage_per_tick,
}
use dpscalclua.Lua.EventStats.{lua_event_add_stats, lua_event_get_stats}
use dpscalclua.Lua.Spells.{
  lua_spell_add, lua_spell_name_to_id, lua_spell_id_to_name, lua_spell_get_cooldown,
  lua_spell_get_school, lua_spell_set_sp_percentage,
}
use dpscalclua.Lua.Casting.{
  lua_player_rating_to_percentage, lua_player_percentage_to_rating, lua_player_get_spell_cast_time,
  lua_player_get_spell_cooldown, lua_player_spell_is_available, lua_player_is_idle,
  lua_player_get_percentage, lua_player_sleep, lua_player_set_crit_bonus, lua_stop_casting,
}
use dpscalclua.Lua.PlayerStats.{
  lua_player_get_stats, lua_player_set_stats, lua_player_add_stats_multiplier, lua_player_add_stats,
}
use dpscalclua.Lua.Units.{
  lua_cast_spell_by_name, lua_unit_apply_aura, lua_unit_aura_applied, lua_target_create,
  lua_target_destroy, lua_get_game_time, lua_finalize_calculation,
}

module _ {D V L : Type 0} ⦃d : Double D⦄ (env : Env D V L) where
  -- The table that `Lua_Initialize` fills.
  unfoldable pub run_fn : Fn → List V → M (World D L) (Reply D)
  run_fn fn_aura_add vs = lua_aura_add env vs
  run_fn fn_aura_name_to_id vs = lua_aura_name_to_id env vs
  run_fn fn_aura_id_to_name vs = lua_aura_id_to_name env vs
  run_fn fn_aura_enable_crit vs = lua_aura_enable_crit env vs
  run_fn fn_aura_enable_haste vs = lua_aura_enable_haste env vs
  run_fn fn_aura_disable_crit vs = lua_aura_disable_crit env vs
  run_fn fn_aura_disable_haste vs = lua_aura_disable_haste env vs
  run_fn fn_aura_get_school vs = lua_aura_get_school env vs
  run_fn fn_aura_set_sp_percentage_per_tick vs = lua_aura_set_sp_percentage_per_tick env vs
  run_fn fn_event_add_stats vs = lua_event_add_stats env vs
  run_fn fn_event_get_stats vs = lua_event_get_stats env vs
  run_fn fn_spell_add vs = lua_spell_add env vs
  run_fn fn_spell_name_to_id vs = lua_spell_name_to_id env vs
  run_fn fn_spell_id_to_name vs = lua_spell_id_to_name env vs
  run_fn fn_spell_get_cooldown vs = lua_spell_get_cooldown env vs
  run_fn fn_spell_get_school vs = lua_spell_get_school env vs
  run_fn fn_spell_set_sp_percentage vs = lua_spell_set_sp_percentage env vs
  run_fn fn_player_rating_to_percentage vs = lua_player_rating_to_percentage env vs
  run_fn fn_player_percentage_to_rating vs = lua_player_percentage_to_rating env vs
  run_fn fn_player_get_spell_cast_time vs = lua_player_get_spell_cast_time env vs
  run_fn fn_player_get_spell_cooldown vs = lua_player_get_spell_cooldown env vs
  run_fn fn_player_spell_is_available vs = lua_player_spell_is_available env vs
  run_fn fn_player_is_idle vs = lua_player_is_idle env vs
  run_fn fn_player_get_percentage vs = lua_player_get_percentage env vs
  run_fn fn_player_sleep vs = lua_player_sleep env vs
  run_fn fn_player_set_crit_bonus vs = lua_player_set_crit_bonus env vs
  run_fn fn_stop_casting vs = lua_stop_casting env vs
  run_fn fn_player_get_stats vs = lua_player_get_stats env vs
  run_fn fn_player_set_stats vs = lua_player_set_stats env vs
  run_fn fn_player_add_stats_multiplier vs = lua_player_add_stats_multiplier env vs
  run_fn fn_player_add_stats vs = lua_player_add_stats env vs
  run_fn fn_cast_spell_by_name vs = lua_cast_spell_by_name env vs
  run_fn fn_unit_apply_aura vs = lua_unit_apply_aura env vs
  run_fn fn_unit_aura_applied vs = lua_unit_aura_applied env vs
  run_fn fn_target_create vs = lua_target_create env vs
  run_fn fn_target_destroy vs = lua_target_destroy env vs
  run_fn fn_get_game_time vs = lua_get_game_time env vs
  run_fn fn_finalize_calculation vs = lua_finalize_calculation env vs

  -- `docall`; the result says whether the status was 0.
  unfoldable pub run_prog : Prog V D L → M (World D L) Bool
  run_prog (finish ok l) w = done ok (record w { lua = l })
  run_prog (call f vs k) w = elim (run_fn f vs w) [
    | fault x ↦ fault x
    | done r v ↦ run_prog (k r) v
  ]

  -- `CallLuaFunction`: the number is passed on unless it is 0.
  unfoldable pub call_lua_function : Hook → ℕ → M (World D L) (Unit {0})
  call_lua_function hook n = do
    w ← get
    ok ← run_prog (env.script hook (if n == 0 then none else some n) w.lua)
    pure tt
