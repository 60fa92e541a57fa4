-- ===== src/Script.antt =====
-- Lua is not part of the program: its state, its values and its conversions are parameters. A routine
-- is a tree of calls of the functions that `LuaIntergration.cpp` exports; each call sees the reply to
-- the one before, an error included, and the end leaves what Lua keeps.
use dpscalclua.Base.{ℕ, Bool, String, List, Option}
use dpscalclua.Aura.{Aura}

-- The routines that the program calls by name.
pub data Hook : Type 0 where
  player_idle pre_casting_spell post_casting_spell : Hook
  pre_spell_channel post_spell_channel : Hook
  aura_application aura_fade pre_periodic_event post_periodic_event : Hook
  on_test_start on_test_finish : Hook

-- The functions that `Lua_Initialize` registers, without the routines above.
pub data Fn : Type 0 where
  fn_aura_add fn_aura_name_to_id fn_aura_id_to_name : Fn
  fn_aura_enable_crit fn_aura_enable_haste fn_aura_disable_crit fn_aura_disable_haste : Fn
  fn_aura_get_school fn_aura_set_sp_percentage_per_tick : Fn
  fn_event_add_stats fn_event_get_stats : Fn
  fn_spell_add fn_spell_name_to_id fn_spell_id_to_name : Fn
  fn_spell_get_cooldown fn_spell_get_school fn_spell_set_sp_percentage : Fn
  fn_player_rating_to_percentage fn_player_percentage_to_rating : Fn
  fn_player_get_spell_cast_time fn_player_get_spell_cooldown : Fn
  fn_player_spell_is_available fn_player_is_idle : Fn
  fn_player_get_stats fn_player_set_stats fn_player_add_stats_multiplier fn_player_add_stats : Fn
  fn_player_get_percentage fn_player_sleep fn_player_set_crit_bonus fn_stop_casting : Fn
  fn_cast_spell_by_name fn_unit_apply_aura fn_unit_aura_applied : Fn
  fn_target_create fn_target_destroy fn_get_game_time fn_finalize_calculation : Fn

-- What an exported function pushes.
pub data Push (D : Type 0) : Type 0 where
  push_nil : Push D
  push_number : D → Push D
  push_string : String → Push D
  push_boolean : Bool → Push D

-- The message of an error that `lua_error` raises.
pub data LuaError : Type 0 where
  expected_string expected_number expected_integer expected_boolean : ℕ → LuaError
  message : String → LuaError

pub data Reply (D : Type 0) : Type 0 where
  returned : List (Push D) → Reply D
  raised : LuaError → Reply D

pub data Prog (V D L : Type 0) : Type 0 where
  -- The end, and whether it came without an error.
  finish : Bool → L → Prog V D L
  call : Fn → List V → (Reply D → Prog V D L) → Prog V D L

-- `lua_isnumber` and its like; `to_integer` gives the 32 bits.
pub record LuaApi (V D : Type 0) : Type 0 where
  pub is_string : V → Bool
  pub is_number : V → Bool
  pub is_boolean : V → Bool
  pub is_nil : V → Bool
  pub to_string : V → String
  pub to_number : V → D
  pub to_integer : V → ℕ
  pub to_boolean : V → Bool

-- What the program takes from outside: `rand`, the contents of memory that it has not written, the
-- functions of Lua, and the routines of the scripts.
pub record Env (D V L : Type 0) : Type 0 where
  pub rand : ℕ → ℕ
  pub junk_word : ℕ → ℕ
  pub junk_aura : ℕ → Aura D
  pub api : LuaApi V D
  pub script : Hook → Option ℕ → L → Prog V D L
