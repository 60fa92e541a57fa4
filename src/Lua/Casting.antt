-- ===== src/Lua/Casting.antt =====
-- The functions of `DPSCalc/LuaIntergration.cpp` on the player's percentages, casting and cooldowns.
use dpscalclua.Base.{ℕ, false, List, ◌||◌, add32, leb, if◌then◌else◌}
use dpscalclua.Double.{Double}
use dpscalclua.Global.{
  PlayerPercentage, crit_percentage, hit_percentage, haste_percentage, other_percentage,
  pp_invalid_min, pp_invalid_max, percentage_of,
}
use dpscalclua.Spell.{Spell, get_spell_by_id, get_spell_by_name}
use dpscalclua.Player.{
  Player, get_crit_percentage, get_hit_percentage, get_haste_percentage, get_spell_cast_time,
  get_spell_cooldown, is_spell_available, is_idle, stop_casting, set_global_cooldown_time,
  rating_to_percentage, percentage_to_rating,
}
use dpscalclua.Store.{on_option, World, M, get, ◌>>=◌, ◌>>◌}
use dpscalclua.Script.{Env, Reply, push_nil, push_number, push_boolean}
use dpscalclua.Heap.{update_player}
use dpscalclua.Lua.Args.{
  need_string, need_number, need_integer, with_player, lua_error, push, push_nothing,
}

module _ {D V L : Type 0} ⦃d : Double D⦄ (env : Env D V L) where
  -- `if (e_Type <= PP_INVAILD_MIN || e_Type >= PP_INVAILD_MAX)` and the error.
  checked_percentage : ℕ → (PlayerPercentage → M (World D L) (Reply D)) → M (World D L) (Reply D)
  checked_percentage n rest =
      if leb n pp_invalid_min || leb pp_invalid_max n
      then lua_error "Invaild parameter #1,e_Type expected"
      else rest (percentage_of n)

  -- `if (CPlayer* thePlayer = GetCurrentPlayer()) lua_pushnumber(...); else lua_pushnil(L);`
  player_number : (Player D → D) → M (World D L) (Reply D)
  player_number f = do
    w ← get
    if w.has_player then push (push_number (f w.player)) else push push_nil

  unfoldable pub percentage_value : PlayerPercentage → M (World D L) (Reply D)
  unfolding player_number
  percentage_value crit_percentage = player_number get_crit_percentage
  percentage_value hit_percentage = player_number get_hit_percentage
  percentage_value haste_percentage = player_number get_haste_percentage
  percentage_value other_percentage = do
    w ← get
    if w.has_player then lua_error "" else push push_nil

  unfoldable pub lua_player_get_percentage : List V → M (World D L) (Reply D)
  unfolding checked_percentage
  lua_player_get_percentage vs =
      need_integer env.api vs 1 λ n. checked_percentage n percentage_value

  -- The function of the spell with the given id, or nil.
  with_spell : ℕ → (Spell D → M (World D L) (Reply D)) → M (World D L) (Reply D)
  with_spell id f = do w ← get; on_option (get_spell_by_id w.spell_db id) (push push_nil) λ s. f s

  unfoldable pub lua_player_get_spell_cast_time : List V → M (World D L) (Reply D)
  unfolding with_spell
  lua_player_get_spell_cast_time vs = need_integer env.api vs 1 λ id.
      with_spell id
        λ s. with_player (do w ← get; push (push_number (get_spell_cast_time w.player s)))

  unfoldable pub lua_player_get_spell_cooldown : List V → M (World D L) (Reply D)
  unfolding with_spell
  lua_player_get_spell_cooldown vs = need_integer env.api vs 1 λ id. with_spell id λ s.
      with_player (do
        w ← get
        push (push_number (d.of_word (get_spell_cooldown w.player w.system.game_time id))))

  unfoldable pub lua_player_spell_is_available : List V → M (World D L) (Reply D)
  lua_player_spell_is_available vs = need_string env.api vs 1 λ name. do
    w ← get
    on_option (get_spell_by_name w.spell_db name) (push (push_boolean false)) λ s.
        with_player
          (do v ← get; push (push_boolean (is_spell_available v.player v.system.game_time s.id)))

  unfoldable pub lua_player_is_idle : List V → M (World D L) (Reply D)
  lua_player_is_idle vs =
      with_player (do w ← get; push (push_boolean (is_idle w.player w.system.game_time)))

  unfoldable pub lua_stop_casting : List V → M (World D L) (Reply D)
  lua_stop_casting vs = do
    w ← get
    if w.has_player
        then (do update_player (λ p. (stop_casting p).0); push_nothing)
        else push_nothing

  unfoldable pub lua_player_sleep : List V → M (World D L) (Reply D)
  lua_player_sleep vs = need_integer env.api vs 1 λ time. do
    w ← get
    let now = w.system.game_time
    if w.has_player
        then (if is_idle w.player now
            then (do update_player (λ p. set_global_cooldown_time p (add32 now time)); push_nothing)
            else push_nothing)
        else push_nothing

  unfoldable pub lua_player_rating_to_percentage : List V → M (World D L) (Reply D)
  unfolding checked_percentage player_number
  lua_player_rating_to_percentage vs = need_integer env.api vs 2 λ rating.
      need_integer env.api vs 1
        λ n. checked_percentage n λ k. player_number λ p. rating_to_percentage rating k

  unfoldable pub lua_player_percentage_to_rating : List V → M (World D L) (Reply D)
  unfolding checked_percentage player_number
  lua_player_percentage_to_rating vs = need_number env.api vs 2 λ x.
      need_integer env.api vs 1
        λ n. checked_percentage n λ k. player_number λ p. d.of_word (percentage_to_rating x k)

  unfoldable pub lua_player_set_crit_bonus : List V → M (World D L) (Reply D)
  lua_player_set_crit_bonus vs = need_number env.api vs 1 λ x. do
    w ← get
    if w.has_player
        then (do update_player (λ p. record p { crit_bonus = x }); push_nothing)
        else push_nothing
