-- ===== src/Rounds/Spin.antt =====
-- When the loop of `Perform` never ends.
use dpscalclua.Base.{
  ℕ, zero, suc, ◌≤◌, ◌<◌, ◌≡◌, refl, ap, ◌∙◌, Bool, true, false, not, List, [], ◌∷◌, Option, none,
  some, arith, add32, add32_exact, if◌then◌else◌,
}
use dpscalclua.Double.{Double}
use dpscalclua.Map.{Map, find}
use dpscalclua.Player.{get_spell_cooldown, is_idle}
use dpscalclua.EventSystem.{EventSystem, advance, is_exitable}
use dpscalclua.Store.{World, M, done, after, pure, when, on_option, ◌>>=◌}
use dpscalclua.Script.{Env, player_idle, finish}
use dpscalclua.Lua.Dispatch.{run_prog, call_lua_function}
use dpscalclua.Simulation.{due, set_system, process_event, running, round, main_loop}
use dpscalclua.Rounds.Clock.{idle_turn}

-- The routine for an idle player calls no function, as the one that `Lua_Initialize` registers.
abbrev pub IsDummy : {D V L : Type 0} → Env D V L → Type 0
IsDummy {D} {V} {L} env =
    (l : L) → (ok : Bool) × (k : L) × (env.script player_idle none l ≡ finish ok k)

-- Nothing is queued, and the player has nothing to wait for.
pub record IsWaiting {D L : Type 0} (w : World D L) : Type 0 where
  pub open_end : w.system.exitable ≡ false
  pub early : w.system.game_time < 2_000_000_000
  pub no_event : w.system.event_map ≡ []
  pub no_cast : w.player.casting_spell ≡ none
  pub no_global_cooldown : w.player.global_cooldown_recovery ≤ w.system.game_time
  pub no_cooldown : find 0 w.player.cooldowns ≡ none

module _ {D V L : Type 0} ⦃d : Double D⦄ (env : Env D V L) where
  process_event-empty :
      (fuel next : ℕ) (w : World D L)
      → w.system.event_map ≡ []
      → process_event env (suc fuel) next w ≡ done (some false) (set_system (λ s. advance s next) w)
  unfolding process_event due ◌>>=◌
  process_event-empty fuel next w e = rw e

still_clock :
    (s : EventSystem) (next : ℕ)
    → s.event_map ≡ []
    → next ≡ 0
    → s.game_time < 2_000_000_000
    → advance s next ≡ s
unfolding advance
still_clock s next e z early = by_map s.event_map e
  where
    by_map :
        (m : Map (List ℕ))
        → m ≡ []
        → advance (record s { event_map = m }) next ≡ record s { event_map = m }
    by_map [] e =
        ap (λ t. record s { game_time = t; event_map = [] })
          (ap (add32 s.game_time) z ∙ add32_exact s.game_time 0 (omega arith) ∙ omega arith)
    by_map (x ∷ m) e = absurd (cc e)

module _ {D L : Type 0} (w : World D L) (h : IsWaiting w) where
  no_wait : get_spell_cooldown w.player w.system.game_time 0 ≡ 0
  unfolding get_spell_cooldown
  no_wait = rw h.no_cooldown (ground (arith, h.no_global_cooldown))

  player_idles : is_idle w.player w.system.game_time ≡ true
  unfolding is_idle
  player_idles = rw h.no_cast (ground (arith, h.no_global_cooldown))

module _ {D V L : Type 0} ⦃d : Double D⦄ (env : Env D V L) (dummy : IsDummy env) where
  call_dummy :
      (w : World D L)
      → (k : L) × (call_lua_function env player_idle 0 w ≡ done tt (record w { lua = k }))
  unfolding run_prog call_lua_function ◌>>=◌
  call_dummy w =
      let (ok, k, e) = dummy w.lua in (k, ap (λ p. after (λ ok v. done tt v) (run_prog env p w)) e)

  idle_turn_again :
      (w : World D L)
      → IsWaiting w
      → (k : L) × (idle_turn env false w ≡ done (some false) (record w { lua = k }))
  unfolding ◌>>=◌
  idle_turn_again w h =
      let (k, e) = call_dummy w in
      let ended : Unit {0} → M (World D L) (Option Bool) = λ t. pure (some false) in
      (
        k,
        ap (λ b. after ended (when b (call_lua_function env player_idle 0) w)) (player_idles w h)
            ∙ ap (after ended) e,
      )

  -- One round changes nothing but what Lua keeps.
  round_again :
      (fuel : ℕ) (w : World D L)
      → IsWaiting w
      → (k : L) × (round env (suc fuel) w ≡ done (some false) (record w { lua = k }))
  unfolding round ◌>>=◌
  round_again fuel w h =
      let (k, e) = idle_turn_again w h in
      let next = get_spell_cooldown w.player w.system.game_time 0 in
      let same = still_clock w.system next h.no_event (no_wait w h) h.early in
      (
        k,
        ap (after (λ r. on_option r (pure none) (idle_turn env)))
              (process_event-empty env fuel next w h.no_event)
            ∙ ap (λ s. idle_turn env false (record w { system = s })) same
            ∙ e,
      )

  still_running : (w : World D L) → IsWaiting w → running env w ≡ true
  unfolding running is_exitable
  still_running w h = ground (arith, h.open_end, h.early)

  -- When nothing is queued, the player has no cooldown and the routine for an idle player calls nothing, as the
  -- one that `Lua_Initialize` registers, the loop of `Perform` never comes to its end: in any number of
  -- rounds, it is still running and the clock has not moved.
  pub main_loop-spins :
      (rounds fuel : ℕ) (w : World D L)
      → IsWaiting w
      → (k : L) × (main_loop env rounds (suc fuel) w ≡ done false (record w { lua = k }))
  unfolding main_loop ◌>>=◌
  main_loop-spins zero fuel w h = (w.lua, refl)
  main_loop-spins (suc rounds) fuel w h =
      let (k, e) = round_again fuel w h in
      let v = record w { lua = k } in
      let (k', e') = main_loop-spins rounds fuel v (still_waiting k) in
      let rest : Option Bool → M (World D L) Bool =
        λ r. on_option r (pure false) λ b. main_loop env rounds (suc fuel) in
      (
        k',
        ap
              (λ b.
                let step : M (World D L) Bool =
                  if not b then pure true else (round env (suc fuel) >>= rest) in
                step w)
              (still_running w h)
            ∙ ap (after rest) e
            ∙ e',
      )
    where
      still_waiting : (k : L) → IsWaiting (record w { lua = k })
      still_waiting k = record {
        open_end = h.open_end;
        early = h.early;
        no_event = h.no_event;
        no_cast = h.no_cast;
        no_global_cooldown = h.no_global_cooldown;
        no_cooldown = h.no_cooldown;
      }
