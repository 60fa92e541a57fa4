-- ===== src/Steady/Routines.antt =====
-- Every routine of the scripts leaves the clock alone.
use dpscalclua.Base.{ℕ, List, refl}
use dpscalclua.Steady.Rules.{Stays, Grows-facts, Shows, Shows-then, stay_rules}
use dpscalclua.Double.{Double}
use dpscalclua.Store.{World, Outcome, done, fault}
use dpscalclua.Script.{
  Env, Reply, Fn, Hook, Prog, finish, call, fn_aura_add, fn_aura_name_to_id, fn_aura_id_to_name,
  fn_aura_enable_crit, fn_aura_enable_haste, fn_aura_disable_crit, fn_aura_disable_haste,
  fn_aura_get_school, fn_aura_set_sp_percentage_per_tick, fn_event_add_stats, fn_event_get_stats,
  fn_spell_add, fn_spell_name_to_id, fn_spell_id_to_name, fn_spell_get_cooldown,
  fn_spell_get_school, fn_spell_set_sp_percentage, fn_player_rating_to_percentage,
  fn_player_percentage_to_rating, fn_player_get_spell_cast_time, fn_player_get_spell_cooldown,
  fn_player_spell_is_available, fn_player_is_idle, fn_player_get_percentage, fn_player_sleep,
  fn_player_set_crit_bonus, fn_stop_casting, fn_player_get_stats, fn_player_set_stats,
  fn_player_add_stats_multiplier, fn_player_add_stats, fn_cast_spell_by_name, fn_unit_apply_aura,
  fn_unit_aura_applied, fn_target_create, fn_target_destroy, fn_get_game_time,
  fn_finalize_calculation,
}
use dpscalclua.Lua.Dispatch.{run_fn, run_prog, call_lua_function}
use dpscalclua.Steady.Functions.{
  Stays-lua_aura_add, Stays-lua_aura_disable_crit, Stays-lua_aura_disable_haste,
  Stays-lua_aura_enable_crit, Stays-lua_aura_enable_haste, Stays-lua_aura_get_school,
  Stays-lua_aura_id_to_name, Stays-lua_aura_name_to_id, Stays-lua_aura_set_sp_percentage_per_tick,
  Stays-lua_player_add_stats, Stays-lua_player_add_stats_multiplier,
  Stays-lua_player_get_percentage, Stays-lua_player_get_spell_cast_time,
  Stays-lua_player_get_spell_cooldown, Stays-lua_player_get_stats, Stays-lua_player_is_idle,
  Stays-lua_player_percentage_to_rating, Stays-lua_player_rating_to_percentage,
  Stays-lua_player_set_crit_bonus, Stays-lua_player_set_stats, Stays-lua_player_sleep,
  Stays-lua_player_spell_is_available, Stays-lua_spell_add, Stays-lua_spell_get_cooldown,
  Stays-lua_spell_get_school, Stays-lua_spell_id_to_name, Stays-lua_spell_name_to_id,
  Stays-lua_spell_set_sp_percentage, Stays-lua_stop_casting,
}
use dpscalclua.Steady.Units.{Stays-lua_event_add_stats, Stays-lua_event_get_stats}
use dpscalclua.Steady.Units.{
  Stays-lua_cast_spell_by_name, Stays-lua_finalize_calculation, Stays-lua_get_game_time,
  Stays-lua_target_create, Stays-lua_target_destroy, Stays-lua_unit_apply_aura,
  Stays-lua_unit_aura_applied,
}

module _ {D V L : Type 0} ⦃d : Double D⦄ (env : Env D V L) where
  Stays-run_fn : (f : Fn) (vs : List V) → Stays (run_fn {L = L} env f vs)
  unfolding run_fn
  Stays-run_fn fn_aura_add vs = Stays-lua_aura_add env vs
  Stays-run_fn fn_aura_name_to_id vs = Stays-lua_aura_name_to_id env vs
  Stays-run_fn fn_aura_id_to_name vs = Stays-lua_aura_id_to_name env vs
  Stays-run_fn fn_aura_enable_crit vs = Stays-lua_aura_enable_crit env vs
  Stays-run_fn fn_aura_enable_haste vs = Stays-lua_aura_enable_haste env vs
  Stays-run_fn fn_aura_disable_crit vs = Stays-lua_aura_disable_crit env vs
  Stays-run_fn fn_aura_disable_haste vs = Stays-lua_aura_disable_haste env vs
  Stays-run_fn fn_aura_get_school vs = Stays-lua_aura_get_school env vs
  Stays-run_fn fn_aura_set_sp_percentage_per_tick vs =
      Stays-lua_aura_set_sp_percentage_per_tick env vs
  Stays-run_fn fn_event_add_stats vs = Stays-lua_event_add_stats env vs
  Stays-run_fn fn_event_get_stats vs = Stays-lua_event_get_stats env vs
  Stays-run_fn fn_spell_add vs = Stays-lua_spell_add env vs
  Stays-run_fn fn_spell_name_to_id vs = Stays-lua_spell_name_to_id env vs
  Stays-run_fn fn_spell_id_to_name vs = Stays-lua_spell_id_to_name env vs
  Stays-run_fn fn_spell_get_cooldown vs = Stays-lua_spell_get_cooldown env vs
  Stays-run_fn fn_spell_get_school vs = Stays-lua_spell_get_school env vs
  Stays-run_fn fn_spell_set_sp_percentage vs = Stays-lua_spell_set_sp_percentage env vs
  Stays-run_fn fn_player_rating_to_percentage vs = Stays-lua_player_rating_to_percentage env vs
  Stays-run_fn fn_player_percentage_to_rating vs = Stays-lua_player_percentage_to_rating env vs
  Stays-run_fn fn_player_get_spell_cast_time vs = Stays-lua_player_get_spell_cast_time env vs
  Stays-run_fn fn_player_get_spell_cooldown vs = Stays-lua_player_get_spell_cooldown env vs
  Stays-run_fn fn_player_spell_is_available vs = Stays-lua_player_spell_is_available env vs
  Stays-run_fn fn_player_is_idle vs = Stays-lua_player_is_idle env vs
  Stays-run_fn fn_player_get_percentage vs = Stays-lua_player_get_percentage env vs
  Stays-run_fn fn_player_sleep vs = Stays-lua_player_sleep env vs
  Stays-run_fn fn_player_set_crit_bonus vs = Stays-lua_player_set_crit_bonus env vs
  Stays-run_fn fn_stop_casting vs = Stays-lua_stop_casting env vs
  Stays-run_fn fn_player_get_stats vs = Stays-lua_player_get_stats env vs
  Stays-run_fn fn_player_set_stats vs = Stays-lua_player_set_stats env vs
  Stays-run_fn fn_player_add_stats_multiplier vs = Stays-lua_player_add_stats_multiplier env vs
  Stays-run_fn fn_player_add_stats vs = Stays-lua_player_add_stats env vs
  Stays-run_fn fn_cast_spell_by_name vs = Stays-lua_cast_spell_by_name env vs
  Stays-run_fn fn_unit_apply_aura vs = Stays-lua_unit_apply_aura env vs
  Stays-run_fn fn_unit_aura_applied vs = Stays-lua_unit_aura_applied env vs
  Stays-run_fn fn_target_create vs = Stays-lua_target_create env vs
  Stays-run_fn fn_target_destroy vs = Stays-lua_target_destroy env vs
  Stays-run_fn fn_get_game_time vs = Stays-lua_get_game_time env vs
  Stays-run_fn fn_finalize_calculation vs = Stays-lua_finalize_calculation env vs

  Shows-call :
      (w : World D L) (o : Outcome (World D L) (Reply D)) (k : Reply D → Prog V D L)
      → Shows w o
      → ((r : Reply D) (v : World D L) → Shows v (run_prog env (k r) v))
      → Shows w (elim o [ fault x ↦ fault x | done r v ↦ run_prog env (k r) v ])
  Shows-call w (done r v) k h rest = Shows-then w v (run_prog env (k r) v) h (rest r v)
  Shows-call w (fault x) k h rest = tt

  Shows-run_prog : (p : Prog V D L) (w : World D L) → Shows w (run_prog env p w)
  unfolding run_prog
  Shows-run_prog (finish ok l) w = Grows-facts w (record w { lua = l }) refl
  Shows-run_prog (call f vs k) w =
      Shows-call w (run_fn env f vs w) k ((Stays-run_fn f vs).at w) λ r v. Shows-run_prog (k r) v

  pub Stays-run_prog : (p : Prog V D L) → Stays (run_prog env p)
  Stays-run_prog p = record { at = Shows-run_prog p }

  pub Stays-call_lua_function : (hook : Hook) (n : ℕ) → Stays (call_lua_function env hook n)
  unfolding call_lua_function
  Stays-call_lua_function hook n = search (stay_rules, Stays-run_prog)
