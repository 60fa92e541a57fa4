-- ===== src/Lua/PlayerStats.antt =====
-- The functions of `DPSCalc/LuaIntergration.cpp` on the player's statistics.
use dpscalclua.Base.{ℕ, List, Option, none, some, ◌||◌, leb, if◌then◌else◌}
use dpscalclua.Double.{Double}
use dpscalclua.Global.{
  PlayerStat, ps_crit_rating, ps_hit_rating, ps_haste_rating, ps_spell_power, ps_intelligence,
  ps_spirit, ps_haste_percentage, ps_other, ps_level, ps_invalid_max, player_stat_of,
}
use dpscalclua.Player.{Player, add_haste_percentage, get_haste_percentage}
use dpscalclua.Player.Stats.{Stat, get_stat, set_stat, add_stat, add_stat_multiplier}
use dpscalclua.Store.{overflow, or_fault, on_option, World, M, get, modify, ◌>>=◌, ◌>>◌}
use dpscalclua.Script.{Env, Reply, push_number}
use dpscalclua.Lua.Args.{need_number, need_integer, with_player, lua_error, push, push_nothing}

module _ {D : Type 0} where
  abbrev with_stat : (Stat D → Player D) → Option (Stat D) → Option (Player D)
  with_stat f none = none
  with_stat f (some s) = some (f s)

  -- One of the six statistics, changed; `some none` is an overflow.
  unfoldable pub change_stat :
      (Stat D → Option (Stat D)) → PlayerStat → Player D → Option (Option (Player D))
  change_stat f ps_crit_rating p =
      some (with_stat (λ s. record p { crit_rating = s }) (f p.crit_rating))
  change_stat f ps_hit_rating p =
      some (with_stat (λ s. record p { hit_rating = s }) (f p.hit_rating))
  change_stat f ps_haste_rating p =
      some (with_stat (λ s. record p { haste_rating = s }) (f p.haste_rating))
  change_stat f ps_spell_power p =
      some (with_stat (λ s. record p { spell_power = s }) (f p.spell_power))
  change_stat f ps_intelligence p =
      some (with_stat (λ s. record p { intelligence = s }) (f p.intelligence))
  change_stat f ps_spirit p = some (with_stat (λ s. record p { spirit = s }) (f p.spirit))
  change_stat f ps_haste_percentage p = none
  change_stat f ps_other p = none

module _ {D V L : Type 0} ⦃d : Double D⦄ (env : Env D V L) where
  -- `if (e_Type <= PS_LEVEL || e_Type >= PS_INVAILD_MAX)` and the error; else the `switch`.
  checked_stat : ℕ → (PlayerStat → M (World D L) (Reply D)) → M (World D L) (Reply D)
  checked_stat n rest =
      if leb n ps_level || leb ps_invalid_max n
      then lua_error "Invaild param #1"
      else rest (player_stat_of n)

  -- The player after the `switch`; `none` is its `default`.
  store_player : Option (Option (Player D)) → M (World D L) (Reply D)
  store_player o =
      on_option o (lua_error "")
        λ q. do p ← or_fault overflow q; modify (λ w. record w { player = p }); push_nothing

  added : PlayerStat → D → Player D → Option (Option (Player D))
  added ps_haste_percentage x p = some (some (add_haste_percentage p x))
  added k x p = change_stat (λ s. add_stat s (d.to_int x)) k p

  unfoldable pub lua_player_add_stats : List V → M (World D L) (Reply D)
  unfolding checked_stat store_player added
  lua_player_add_stats vs = need_integer env.api vs 1 λ n.
      need_number env.api vs 2
        λ x. checked_stat n λ k. with_player (do w ← get; store_player (added k x w.player))

  stat_value : PlayerStat → Player D → Option D
  stat_value ps_crit_rating p = some (d.of_word (get_stat p.crit_rating))
  stat_value ps_hit_rating p = some (d.of_word (get_stat p.hit_rating))
  stat_value ps_haste_rating p = some (d.of_word (get_stat p.haste_rating))
  stat_value ps_spell_power p = some (d.of_word (get_stat p.spell_power))
  stat_value ps_intelligence p = some (d.of_word (get_stat p.intelligence))
  stat_value ps_spirit p = some (d.of_word (get_stat p.spirit))
  stat_value ps_haste_percentage p = some (get_haste_percentage p)
  stat_value ps_other p = none

  push_value : Option D → M (World D L) (Reply D)
  push_value o = on_option o (lua_error "") λ x. push (push_number x)

  unfoldable pub lua_player_get_stats : List V → M (World D L) (Reply D)
  unfolding checked_stat stat_value push_value
  lua_player_get_stats vs =
      need_integer env.api vs 1
        λ n. checked_stat n λ k. with_player (do w ← get; push_value (stat_value k w.player))

  unfoldable pub lua_player_add_stats_multiplier : List V → M (World D L) (Reply D)
  unfolding checked_stat store_player
  lua_player_add_stats_multiplier vs = need_integer env.api vs 1 λ n. need_number env.api vs 2 λ x.
      checked_stat n λ k.
        with_player
          (do w ← get; store_player (change_stat (λ s. some (add_stat_multiplier s x)) k w.player))

  unfoldable pub lua_player_set_stats : List V → M (World D L) (Reply D)
  unfolding checked_stat store_player
  lua_player_set_stats vs = need_integer env.api vs 1 λ n. need_integer env.api vs 2 λ x.
      checked_stat n λ k.
        with_player (do w ← get; store_player (change_stat (λ s. some (set_stat s x)) k w.player))
