-- ===== src/Safety/Routines.antt =====
-- Every routine of the scripts keeps a frame.
use dpscalclua.Base.{ℕ, List}
use dpscalclua.Double.{Double}
use dpscalclua.Store.{World, Outcome, done, fault}
use dpscalclua.Script.{
  Env, Reply, Fn, Hook, Prog, finish, call, fn_aura_add, fn_aura_name_to_id, fn_aura_id_to_name,
  fn_aura_enable_crit, fn_aura_enable_haste, fn_aura_disable_crit, fn_aura_disable_haste,
  fn_aura_get_school, fn_aura_set_sp_percentage_per_tick, fn_event_add_stats, fn_event_get_stats,
  fn_spell_add, fn_spell_name_to_id, fn_spell_id_to_name, fn_spell_get_cooldown,
  fn_spell_get_school, fn_spell_set_sp_percentage, fn_player_rating_to_percentage,
  fn_player_percentage_to_rating, fn_player_get_spell_cast_time, fn_player_get_spell_cooldown,
  fn_player_spell_is_available, fn_player_is_idle, fn_player_get_percentage, fn_player_sleep,
  fn_player_set_crit_bonus, fn_stop_casting, fn_player_get_stats, fn_player_set_stats,
  fn_player_add_stats_multiplier, fn_player_add_stats, fn_cast_spell_by_name, fn_unit_apply_aura,
  fn_unit_aura_applied, fn_target_create, fn_target_destroy, fn_get_game_time,
  fn_finalize_calculation,
}
use dpscalclua.Lua.Dispatch.{run_fn, run_prog, call_lua_function}
use dpscalclua.Safety.Meets.{Holds, Keeps}
use dpscalclua.Safety.Core.{Core, On, IsFrame, frame_rules}
use dpscalclua.Safety.Functions.{
  Keeps-lua_aura_add, Keeps-lua_aura_disable_crit, Keeps-lua_aura_disable_haste,
  Keeps-lua_aura_enable_crit, Keeps-lua_aura_enable_haste, Keeps-lua_aura_get_school,
  Keeps-lua_aura_id_to_name, Keeps-lua_aura_name_to_id, Keeps-lua_aura_set_sp_percentage_per_tick,
  Keeps-lua_player_add_stats, Keeps-lua_player_add_stats_multiplier,
  Keeps-lua_player_get_percentage, Keeps-lua_player_get_spell_cast_time,
  Keeps-lua_player_get_spell_cooldown, Keeps-lua_player_get_stats, Keeps-lua_player_is_idle,
  Keeps-lua_player_percentage_to_rating, Keeps-lua_player_rating_to_percentage,
  Keeps-lua_player_set_crit_bonus, Keeps-lua_player_set_stats, Keeps-lua_player_sleep,
  Keeps-lua_player_spell_is_available, Keeps-lua_spell_add, Keeps-lua_spell_get_cooldown,
  Keeps-lua_spell_get_school, Keeps-lua_spell_id_to_name, Keeps-lua_spell_name_to_id,
  Keeps-lua_spell_set_sp_percentage, Keeps-lua_stop_casting,
}
use dpscalclua.Safety.Current.{Keeps-lua_event_add_stats, Keeps-lua_event_get_stats}
use dpscalclua.Safety.Units.{
  Keeps-lua_cast_spell_by_name, Keeps-lua_finalize_calculation, Keeps-lua_get_game_time,
  Keeps-lua_target_create, Keeps-lua_target_destroy, Keeps-lua_unit_apply_aura,
  Keeps-lua_unit_aura_applied,
}

module _ {D V L : Type 0} ⦃d : Double D⦄ (env : Env D V L) {P : Core D → Type 0}
    (F : IsFrame P) where
  Keeps-run_fn : (f : Fn) (vs : List V) → Keeps (On P) (run_fn {L = L} env f vs)
  unfolding run_fn
  Keeps-run_fn fn_aura_add vs = Keeps-lua_aura_add env F vs
  Keeps-run_fn fn_aura_name_to_id vs = Keeps-lua_aura_name_to_id env F vs
  Keeps-run_fn fn_aura_id_to_name vs = Keeps-lua_aura_id_to_name env F vs
  Keeps-run_fn fn_aura_enable_crit vs = Keeps-lua_aura_enable_crit env F vs
  Keeps-run_fn fn_aura_enable_haste vs = Keeps-lua_aura_enable_haste env F vs
  Keeps-run_fn fn_aura_disable_crit vs = Keeps-lua_aura_disable_crit env F vs
  Keeps-run_fn fn_aura_disable_haste vs = Keeps-lua_aura_disable_haste env F vs
  Keeps-run_fn fn_aura_get_school vs = Keeps-lua_aura_get_school env F vs
  Keeps-run_fn fn_aura_set_sp_percentage_per_tick vs =
      Keeps-lua_aura_set_sp_percentage_per_tick env F vs
  Keeps-run_fn fn_event_add_stats vs = Keeps-lua_event_add_stats env F vs
  Keeps-run_fn fn_event_get_stats vs = Keeps-lua_event_get_stats env F vs
  Keeps-run_fn fn_spell_add vs = Keeps-lua_spell_add env F vs
  Keeps-run_fn fn_spell_name_to_id vs = Keeps-lua_spell_name_to_id env F vs
  Keeps-run_fn fn_spell_id_to_name vs = Keeps-lua_spell_id_to_name env F vs
  Keeps-run_fn fn_spell_get_cooldown vs = Keeps-lua_spell_get_cooldown env F vs
  Keeps-run_fn fn_spell_get_school vs = Keeps-lua_spell_get_school env F vs
  Keeps-run_fn fn_spell_set_sp_percentage vs = Keeps-lua_spell_set_sp_percentage env F vs
  Keeps-run_fn fn_player_rating_to_percentage vs = Keeps-lua_player_rating_to_percentage env F vs
  Keeps-run_fn fn_player_percentage_to_rating vs = Keeps-lua_player_percentage_to_rating env F vs
  Keeps-run_fn fn_player_get_spell_cast_time vs = Keeps-lua_player_get_spell_cast_time env F vs
  Keeps-run_fn fn_player_get_spell_cooldown vs = Keeps-lua_player_get_spell_cooldown env F vs
  Keeps-run_fn fn_player_spell_is_available vs = Keeps-lua_player_spell_is_available env F vs
  Keeps-run_fn fn_player_is_idle vs = Keeps-lua_player_is_idle env F vs
  Keeps-run_fn fn_player_get_percentage vs = Keeps-lua_player_get_percentage env F vs
  Keeps-run_fn fn_player_sleep vs = Keeps-lua_player_sleep env F vs
  Keeps-run_fn fn_player_set_crit_bonus vs = Keeps-lua_player_set_crit_bonus env F vs
  Keeps-run_fn fn_stop_casting vs = Keeps-lua_stop_casting env F vs
  Keeps-run_fn fn_player_get_stats vs = Keeps-lua_player_get_stats env F vs
  Keeps-run_fn fn_player_set_stats vs = Keeps-lua_player_set_stats env F vs
  Keeps-run_fn fn_player_add_stats_multiplier vs = Keeps-lua_player_add_stats_multiplier env F vs
  Keeps-run_fn fn_player_add_stats vs = Keeps-lua_player_add_stats env F vs
  Keeps-run_fn fn_cast_spell_by_name vs = Keeps-lua_cast_spell_by_name env F vs
  Keeps-run_fn fn_unit_apply_aura vs = Keeps-lua_unit_apply_aura env F vs
  Keeps-run_fn fn_unit_aura_applied vs = Keeps-lua_unit_aura_applied env F vs
  Keeps-run_fn fn_target_create vs = Keeps-lua_target_create env F vs
  Keeps-run_fn fn_target_destroy vs = Keeps-lua_target_destroy env F vs
  Keeps-run_fn fn_get_game_time vs = Keeps-lua_get_game_time env F vs
  Keeps-run_fn fn_finalize_calculation vs = Keeps-lua_finalize_calculation env F vs

  run_prog_lem : (p : Prog V D L) (w : World D L) → On P w → Holds (λ _. On P) (run_prog env p w)
  unfolding run_prog
  run_prog_lem (finish ok l) w h = record { holds = h.holds }
  run_prog_lem (call f vs k) w h =
      after (run_fn env f vs w) ((Keeps-run_fn f vs).at w h) λ r v g. run_prog_lem (k r) v g
    where
      after :
          (o : Outcome (World D L) (Reply D))
          → Holds (λ _. On P) o
          → ((r : Reply D) (v : World D L) → On P v → Holds (λ _. On P) (run_prog env (k r) v))
          → Holds (λ _. On P) (elim o [ fault x ↦ fault x | done r v ↦ run_prog env (k r) v ])
      after (done r v) g rest = rest r v g
      after (fault x) g rest = g

  pub Keeps-run_prog : (p : Prog V D L) → Keeps (On P) (run_prog env p)
  Keeps-run_prog p = record { at = run_prog_lem p }

  -- Whatever a script does, it keeps what every frame keeps.
  pub Keeps-call_lua_function : (hook : Hook) (n : ℕ) → Keeps (On P) (call_lua_function env hook n)
  unfolding call_lua_function
  Keeps-call_lua_function hook n = search (frame_rules, Keeps-run_prog)
