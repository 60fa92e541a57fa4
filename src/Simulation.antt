-- ===== src/Simulation.antt =====
-- `CEventSystem::ProcessEvent` (`DPSCalc/EventSystem.cpp`) and the run of `Perform`
-- (`DPSCalc/DPSCalc.cpp`). Both loops take fuel; `none` means that it ran out.
use dpscalclua.Base.{
  ℕ, zero, suc, Bool, true, false, not, ◌&&◌, List, [], ◌∷◌, Option, none, some, ltb, leb,
  if◌then◌else◌,
}
use dpscalclua.Double.{Double}
use dpscalclua.Player.{get_spell_cooldown, is_idle}
use dpscalclua.Event.{CreatureRef, Body, of_spell, of_aura}
use dpscalclua.EventSystem.{EventSystem, pop_front, advance, is_exitable}
use dpscalclua.Store.{on_option, World, M, pure, get, modify, when, ◌>>=◌, ◌>>◌}
use dpscalclua.Script.{Env, player_idle}
use dpscalclua.Heap.{read_event, delete_event}
use dpscalclua.Lua.Dispatch.{call_lua_function}
use dpscalclua.Combat.AuraEvents.{run_aura_event}
use dpscalclua.Combat.SpellEvents.{run_spell_event}

-- `SetCurrentEvent`, `SetCurrentTarget` and their like: over a pointer that is set, a second one that
-- is not NULL is refused.
unfoldable pub set_pointer : {A : Type 0} → Option A → Option A → Option A × Bool
set_pointer none new = (new, true)
set_pointer (some old) none = (none, true)
set_pointer (some old) (some new) = (some old, false)

-- The first entry of the queue, if it is due.
unfoldable pub due : EventSystem → Option (ℕ × List ℕ)
due s = elim s.event_map [
  | [] ↦ none
  | (time, l) ∷ m ↦ if leb time s.game_time then some (time, l) else none
]

module _ {D L : Type 0} where
  abbrev pub set_system : (EventSystem → EventSystem) → World D L → World D L
  set_system f w = record w { system = f w.system }

  unfoldable pub set_current : Option ℕ → Option CreatureRef → M (World D L) (Unit {0})
  set_current e t = modify (λ w. record w {
    current_event = (set_pointer w.current_event e).0;
    current_target = (set_pointer w.current_target t).0;
  })

module _ {D V L : Type 0} ⦃d : Double D⦄ (env : Env D V L) where
  -- The virtual call `pEvent->operator()(0)`.
  unfoldable pub run_body : ℕ → Body → M (World D L) Bool
  run_body a (of_spell s) = run_spell_event env a
  run_body a (of_aura s) = run_aura_event env a

  -- One event, from `SetCurrentEvent(pEvent)` to `SetCurrentEvent(NULL)`.
  unfoldable pub dispatch_event : ℕ → M (World D L) (Unit {0})
  dispatch_event a = do
    e ← read_event a
    set_current (some a) (some e.target)
    over ← run_body a e.body
    when over (delete_event a)
    set_current none none

  unfoldable pub dispatch_first : List ℕ → M (World D L) (Unit {0})
  dispatch_first [] = pure tt
  dispatch_first (a ∷ rest) = dispatch_event a

  -- The body of the loop of `ProcessEvent` for an entry that is due.
  unfoldable pub process_entry : (time : ℕ) → List ℕ → M (World D L) (Unit {0})
  process_entry time l = do
    dispatch_first l
    modify (set_system (λ s. record s { event_map = pop_front time s.event_map }))

  unfoldable pub process_event : (fuel next : ℕ) → M (World D L) (Option Bool)
  process_event zero next = pure none
  process_event (suc fuel) next = do
    w ← get
    on_option (due w.system) (do modify (set_system (λ s. advance s next)); pure (some false))
        λ first. do
          process_entry first.0 first.1
          v ← get
          on_option (due v.system) (pure (some true)) λ x. process_event fuel next

  -- The condition of the loop of `Perform`.
  unfoldable pub running : World D L → Bool
  running w = not (is_exitable w.system) && ltb w.system.game_time 2_000_000_000

  -- Its body; `fuel` is that of `ProcessEvent`.
  unfoldable pub round : (fuel : ℕ) → M (World D L) (Option Bool)
  round fuel = do
    w ← get
    r ← process_event fuel (get_spell_cooldown w.player w.system.game_time 0)
    on_option r (pure none) λ b. do
      v ← get
      when (is_idle v.player v.system.game_time) (call_lua_function env player_idle 0)
      pure (some b)

  -- The loop; the result says whether it came to its end.
  unfoldable pub main_loop : (rounds fuel : ℕ) → M (World D L) Bool
  main_loop zero fuel = pure false
  main_loop (suc rounds) fuel = do
    w ← get
    if not (running w)
        then pure true
        else (do r ← round fuel; on_option r (pure false) λ b. main_loop rounds fuel)
