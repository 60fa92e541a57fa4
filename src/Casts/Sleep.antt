-- ===== src/Casts/Sleep.antt =====
-- What `L_PlayerSleep` of `DPSCalc/LuaIntergration.cpp` does to the spells that the player may cast.
use dpscalclua.Base.{
  ℕ, ◌+◌, ◌≤◌, ◌<◌, ◌≡◌, refl, ◌∙◌, ap, true, [], ◌∷◌, inl, inr, arith, add32, add32_exact,
  word_mod, leb, ◌&&◌, if◌then◌else◌, Bool-cases, Option-cases,
}
use dpscalclua.Double.{Double}
use dpscalclua.Map.{find}
use dpscalclua.Player.{
  Player, is_idle, get_spell_cooldown, is_spell_available, set_global_cooldown_time,
}
use dpscalclua.Store.{World, done, pure, get, modify, on_option, ◌>>=◌}
use dpscalclua.Script.{Env, returned}
use dpscalclua.Heap.{update_player}
use dpscalclua.Lua.Args.{need_integer}
use dpscalclua.Lua.Casting.{lua_player_sleep}

-- An idle player who waits until `wake` may cast from then on what it could cast otherwise.
is_spell_available-set_global_cooldown_time :
    {D : Type 0} (p : Player D) (now wake t spell : ℕ)
    → is_idle p now ≡ true
    → now ≤ t
    → is_spell_available (set_global_cooldown_time p wake) t spell
      ≡ leb wake t && is_spell_available p t spell
unfolding is_spell_available is_idle get_spell_cooldown set_global_cooldown_time
is_spell_available-set_global_cooldown_time p now wake t spell idle le =
    elim (Option-cases p.casting_spell) [
      | inr (e, h) ↦ absurd (ground (arith, h, idle))
      | inl h ↦ rw h (elim (Option-cases (find spell p.cooldowns)) [
        | inl f ↦ rw f (ground (arith, h, idle))
        | inr (own, f) ↦ rw f (ground (arith, h, idle))
      ])
    ]

module _ {D V L : Type 0} ⦃d : Double D⦄ (env : Env D V L) where
  -- `PlayerSleep` with a number, a player, and a time to wake that is below 2 ^ 32: it returns nothing and
  -- changes the player only. An idle player may from now on cast a spell when the time to wake has come
  -- and it could cast the spell without the sleep; a busy player may cast what it could.
  pub lua_player_sleep_lem :
      (a : V) (w : World D L)
      → env.api.is_number a ≡ true
      → w.has_player ≡ true
      → w.system.game_time + env.api.to_integer a < word_mod
      → (p : Player D) × (lua_player_sleep env (a ∷ []) w
          ≡ done (returned []) (record w { player = p }))
        × ((t spell : ℕ)
            → w.system.game_time ≤ t
            → is_spell_available p t spell ≡ (
                if is_idle w.player w.system.game_time
                then leb (w.system.game_time + env.api.to_integer a) t
                  && is_spell_available w.player t spell
                else is_spell_available w.player t spell))
  unfolding lua_player_sleep need_integer update_player on_option get modify pure ◌>>=◌
  lua_player_sleep_lem a w s player fits =
      let now = w.system.game_time in
      let wake = add32 now (env.api.to_integer a) in
      let exact : wake ≡ now + env.api.to_integer a = add32_exact now (env.api.to_integer a) fits in
      elim (Bool-cases (is_idle w.player now)) [
        | inr busy ↦ (w.player, rw (s, player, busy) refl, λ t spell le. rw busy refl)
        | inl idle ↦ (
          set_global_cooldown_time w.player wake,
          rw (s, player, idle) refl,
          λ t spell le. rw idle (
              is_spell_available-set_global_cooldown_time w.player now wake t spell idle le
              ∙ ap (λ n. leb n t && is_spell_available w.player t spell) exact),
        )
      ]
