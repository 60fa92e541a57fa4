-- ===== src/Calculation.antt =====
-- `Perform` (`DPSCalc/DPSCalc.cpp`) as a whole, with `Lua_Initialize` and `Lua_CleanUp`
-- (`DPSCalc/LuaIntergration.cpp`) and the destructor of `CEventSystem`. `has_player` says whether the global
-- pointers to the player and the queue are set, which happens together.
pub mod Again
use dpscalclua.Base.{
  ℕ, zero, suc, ◌&&◌, ltb, Bool, true, false, not, List, [], ◌∷◌, Option, none, some, if◌then◌else◌,
}
use dpscalclua.Double.{Double}
use dpscalclua.Map.{Map}
use dpscalclua.Aura.{empty_aura_db}
use dpscalclua.Spell.{empty_spell_db}
use dpscalclua.Player.{Player, new_player, is_idle, get_spell_cooldown}
use dpscalclua.EventSystem.{EventSystem, new_event_system, advance, is_exitable}
use dpscalclua.Store.{World, M, pure, get, modify, on_option, when, ◌>>=◌, ◌>>◌}
use dpscalclua.Script.{Env, on_test_start, on_test_finish, player_idle}
use dpscalclua.Loading.{Code, run_lua_code, load_toc, main_toc}
use dpscalclua.Heap.{delete_event}
use dpscalclua.Lua.Dispatch.{call_lua_function}
use dpscalclua.Reporter.Object.{new_reporter, delete_reporter}
use dpscalclua.Simulation.{set_system, main_loop}

pub data Verdict (D : Type 0) : Type 0 where
  not_loaded : Verdict D
  out_of_fuel : Verdict D
  result : D → Verdict D
  -- What follows the loop of a run with pointers left over is not modelled.
  beyond : Verdict D

module _ {D L : Type 0} where
  -- `std::for_each(..., [&](CEvent* e) { delete e; })`.
  unfoldable pub delete_all : List ℕ → M (World D L) (Unit {0})
  delete_all [] = pure tt
  delete_all (a ∷ l) = do delete_event a; delete_all l

  -- `~CEventSystem`, from an entry of the map on.
  unfoldable pub delete_entries : Map (List ℕ) → M (World D L) (Unit {0})
  delete_entries [] = pure tt
  delete_entries ((t, l) ∷ m) = do delete_all l; delete_entries m

  unfoldable pub delete_event_system : M (World D L) (Unit {0})
  delete_event_system = do
    w ← get
    delete_entries w.system.event_map
    modify (set_system (λ s. record s { event_map = [] }))

module _ {D V L : Type 0} ⦃d : Double D⦄ (env : Env D V L) (code : Code V D L) where
  -- Up to `Lua_Initialize`. `SetEventSystem` and `SetCurrentPlayer` are refused if the pointers are set.
  unfoldable pub set_up : (is_save is_detail : Bool) → World D L → World D L
  set_up is_save is_detail w =
      let v = record w {
        damage_counter = 0;
        system = if w.has_player then w.system else new_event_system;
        player = if w.has_player then w.player else new_player;
        has_player = true;
        normalize_crit = not is_detail;
        reports = none;
      } in
      if is_detail then new_reporter is_save v else v

  -- `none` means that the fuel did not suffice for the nesting of the tables of contents.
  unfoldable pub lua_initialize : (fuel : ℕ) → M (World D L) (Option Bool)
  lua_initialize fuel = do
    modify (λ w. record w { aura_db = empty_aura_db; spell_db = empty_spell_db; creatures = [] })
    if code.opens
        then (do
          modify (λ w. record w { lua = code.fresh })
          ok ← run_lua_code env code code.preload
          load_toc env code fuel main_toc)
        else pure (some false)

  unfoldable pub lua_clean_up : World D L → World D L
  lua_clean_up w = record w { aura_db = empty_aura_db; spell_db = empty_spell_db; creatures = [] }

  -- `iDamageCounter / (GetGameTime() / 1000.0f)`.
  unfoldable pub damage_per_second : World D L → D
  damage_per_second w =
      d.float_div (d.float_of_word w.damage_counter)
        (d.float_div (d.float_of_word w.system.game_time) (d.float_lit 1000 0))

  -- From `SetCurrentPlayer(NULL)` on.
  unfoldable pub tear_down : M (World D L) (Unit {0})
  tear_down = do
    modify (λ w. record w { has_player = false })
    delete_event_system
    delete_reporter code.print_float code.less
    modify (λ w. record w { reports = none })
    modify lua_clean_up

  -- From `RunLuaCode(AdditionalLua)` on.
  unfoldable pub calculate : (rounds fuel : ℕ) → M (World D L) (Verdict D)
  calculate rounds fuel = do
    ran ← run_lua_code env code code.additional
    call_lua_function env on_test_start 0
    ended ← main_loop env rounds fuel
    if not ended then pure out_of_fuel else (do
      w ← get
      set ← run_lua_code env code (some (code.dps w.damage_counter))
      call_lua_function env on_test_finish 0
      v ← get
      tear_down
      pure (result (damage_per_second v)))

  -- The loop of a run for which the pointers were set before: it looks at its own queue `s` and player `p`,
  -- but `GetEventSystem` and `GetCurrentPlayer` give the old ones to all that scripts do. So no event comes
  -- into `s`, and of `ProcessEvent` there is the clock.
  unfoldable pub spare_loop : (rounds : ℕ) → EventSystem → Player D → M (World D L) Bool
  spare_loop zero s p = pure false
  spare_loop (suc rounds) s p =
      if not (not (is_exitable s) && ltb s.game_time 2_000_000_000) then pure true else (do
        let t = advance s (get_spell_cooldown p s.game_time 0)
        when (is_idle p t.game_time) (call_lua_function env player_idle 0)
        spare_loop rounds t p)

  -- From `RunLuaCode(AdditionalLua)` to the loop, in such a run.
  unfoldable pub calculate_left : (rounds : ℕ) → M (World D L) (Verdict D)
  unfolding spare_loop
  calculate_left rounds = do
    ran ← run_lua_code env code code.additional
    call_lua_function env on_test_start 0
    ended ← spare_loop rounds new_event_system new_player
    if ended then pure beyond else pure out_of_fuel

  unfoldable pub perform : (is_save is_detail : Bool) (rounds fuel : ℕ) → M (World D L) (Verdict D)
  perform is_save is_detail rounds fuel = do
    w ← get
    modify (set_up is_save is_detail)
    loaded ← lua_initialize fuel
    on_option loaded (pure out_of_fuel) λ ok.
        if ok
        then (if w.has_player then calculate_left rounds else calculate rounds fuel)
        else pure not_loaded
