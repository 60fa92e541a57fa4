-- ===== src/Errors/Calls.antt =====
-- A call of a script that raises an error.
use dpscalclua.Base.{List, ◌≡◌, refl, subst, false}
use dpscalclua.Double.{Double}
use dpscalclua.Store.{World, done}
use dpscalclua.Script.{
  Env, raised, LuaError, Fn, fn_aura_add, fn_aura_name_to_id, fn_aura_id_to_name,
  fn_aura_enable_crit, fn_aura_enable_haste, fn_aura_disable_crit, fn_aura_disable_haste,
  fn_aura_get_school, fn_aura_set_sp_percentage_per_tick, fn_event_add_stats, fn_event_get_stats,
  fn_spell_add, fn_spell_name_to_id, fn_spell_id_to_name, fn_spell_get_cooldown,
  fn_spell_get_school, fn_spell_set_sp_percentage, fn_player_rating_to_percentage,
  fn_player_percentage_to_rating, fn_player_get_spell_cast_time, fn_player_get_spell_cooldown,
  fn_player_spell_is_available, fn_player_is_idle, fn_player_get_percentage, fn_player_sleep,
  fn_player_set_crit_bonus, fn_stop_casting, fn_player_get_stats, fn_player_set_stats,
  fn_player_add_stats_multiplier, fn_player_add_stats, fn_cast_spell_by_name, fn_unit_apply_aura,
  fn_unit_aura_applied, fn_target_create, fn_target_destroy, fn_get_game_time,
  fn_finalize_calculation,
}
use dpscalclua.Lua.Dispatch.{run_fn}
use dpscalclua.Errors.Rules.{Raises, Leads, Untouched}
use dpscalclua.Errors.Functions.{
  Raises-lua_aura_add, Raises-lua_aura_name_to_id, Raises-lua_aura_id_to_name,
  Raises-lua_aura_enable_crit, Raises-lua_aura_enable_haste, Raises-lua_aura_disable_crit,
  Raises-lua_aura_disable_haste, Raises-lua_aura_get_school,
  Raises-lua_aura_set_sp_percentage_per_tick, Raises-lua_event_add_stats,
  Raises-lua_event_get_stats, Raises-lua_spell_add, Raises-lua_spell_name_to_id,
  Raises-lua_spell_id_to_name, Raises-lua_spell_get_cooldown, Raises-lua_spell_get_school,
  Raises-lua_spell_set_sp_percentage, Raises-lua_player_rating_to_percentage,
  Raises-lua_player_percentage_to_rating, Raises-lua_player_get_spell_cast_time,
  Raises-lua_player_get_spell_cooldown, Raises-lua_player_spell_is_available,
  Raises-lua_player_is_idle, Raises-lua_player_get_percentage, Raises-lua_player_sleep,
  Raises-lua_player_set_crit_bonus, Raises-lua_stop_casting, Raises-lua_player_get_stats,
  Raises-lua_player_set_stats, Raises-lua_player_add_stats_multiplier, Raises-lua_player_add_stats,
  Raises-lua_cast_spell_by_name, Raises-lua_unit_apply_aura, Raises-lua_unit_aura_applied,
  Raises-lua_target_create, Raises-lua_target_destroy, Raises-lua_get_game_time,
  Raises-lua_finalize_calculation,
}

module _ {D V L : Type 0} ⦃d : Double D⦄ (env : Env D V L) where
  Raises-run_fn : (w : World D L) (f : Fn) (vs : List V) → Raises w false (run_fn env f vs)
  unfolding run_fn
  Raises-run_fn w fn_aura_add vs = Raises-lua_aura_add env vs
  Raises-run_fn w fn_aura_name_to_id vs = Raises-lua_aura_name_to_id env vs
  Raises-run_fn w fn_aura_id_to_name vs = Raises-lua_aura_id_to_name env vs
  Raises-run_fn w fn_aura_enable_crit vs = Raises-lua_aura_enable_crit env vs
  Raises-run_fn w fn_aura_enable_haste vs = Raises-lua_aura_enable_haste env vs
  Raises-run_fn w fn_aura_disable_crit vs = Raises-lua_aura_disable_crit env vs
  Raises-run_fn w fn_aura_disable_haste vs = Raises-lua_aura_disable_haste env vs
  Raises-run_fn w fn_aura_get_school vs = Raises-lua_aura_get_school env vs
  Raises-run_fn w fn_aura_set_sp_percentage_per_tick vs =
      Raises-lua_aura_set_sp_percentage_per_tick env vs
  Raises-run_fn w fn_event_add_stats vs = Raises-lua_event_add_stats env vs
  Raises-run_fn w fn_event_get_stats vs = Raises-lua_event_get_stats env vs
  Raises-run_fn w fn_spell_add vs = Raises-lua_spell_add env vs
  Raises-run_fn w fn_spell_name_to_id vs = Raises-lua_spell_name_to_id env vs
  Raises-run_fn w fn_spell_id_to_name vs = Raises-lua_spell_id_to_name env vs
  Raises-run_fn w fn_spell_get_cooldown vs = Raises-lua_spell_get_cooldown env vs
  Raises-run_fn w fn_spell_get_school vs = Raises-lua_spell_get_school env vs
  Raises-run_fn w fn_spell_set_sp_percentage vs = Raises-lua_spell_set_sp_percentage env vs
  Raises-run_fn w fn_player_rating_to_percentage vs = Raises-lua_player_rating_to_percentage env vs
  Raises-run_fn w fn_player_percentage_to_rating vs = Raises-lua_player_percentage_to_rating env vs
  Raises-run_fn w fn_player_get_spell_cast_time vs = Raises-lua_player_get_spell_cast_time env vs
  Raises-run_fn w fn_player_get_spell_cooldown vs = Raises-lua_player_get_spell_cooldown env vs
  Raises-run_fn w fn_player_spell_is_available vs = Raises-lua_player_spell_is_available env vs
  Raises-run_fn w fn_player_is_idle vs = Raises-lua_player_is_idle env vs
  Raises-run_fn w fn_player_get_percentage vs = Raises-lua_player_get_percentage env vs
  Raises-run_fn w fn_player_sleep vs = Raises-lua_player_sleep env vs
  Raises-run_fn w fn_player_set_crit_bonus vs = Raises-lua_player_set_crit_bonus env vs
  Raises-run_fn w fn_stop_casting vs = Raises-lua_stop_casting env vs
  Raises-run_fn w fn_player_get_stats vs = Raises-lua_player_get_stats env vs
  Raises-run_fn w fn_player_set_stats vs = Raises-lua_player_set_stats env vs
  Raises-run_fn w fn_player_add_stats_multiplier vs = Raises-lua_player_add_stats_multiplier env vs
  Raises-run_fn w fn_player_add_stats vs = Raises-lua_player_add_stats env vs
  Raises-run_fn w fn_cast_spell_by_name vs = Raises-lua_cast_spell_by_name env vs
  Raises-run_fn w fn_unit_apply_aura vs = Raises-lua_unit_apply_aura env vs
  Raises-run_fn w fn_unit_aura_applied vs = Raises-lua_unit_aura_applied env vs
  Raises-run_fn w fn_target_create vs = Raises-lua_target_create env vs
  Raises-run_fn w fn_target_destroy vs = Raises-lua_target_destroy env vs
  Raises-run_fn w fn_get_game_time vs = Raises-lua_get_game_time env vs
  Raises-run_fn w fn_finalize_calculation vs = Raises-lua_finalize_calculation env vs

  -- A call of a script, of any function and with any arguments, that raises an error leaves the whole store
  -- as it was.
  pub run_fn-raised :
      (f : Fn) (vs : List V) (w v : World D L) (e : LuaError)
      → run_fn env f vs w ≡ done (raised e) v
      → run_fn env f vs w ≡ done (raised e) w
  run_fn-raised f vs w v e h =
      let same : v ≡ w = subst (Leads (Untouched w)) h ((Raises-run_fn w f vs).at w λ g. refl) in
      subst (λ u. run_fn env f vs w ≡ done (raised e) u) same h
