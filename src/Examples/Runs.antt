-- ===== src/Examples/Runs.antt =====
-- The theorems on runs at the store of `Stores`.
use dpscalclua.Base.{
  String, ◌≤◌, leb, ◌&&◌, ℕ, ◌≡◌, refl, true, false, [], ◌∷◌, none, some, inl, ◌==◌, if◌then◌else◌,
  arith,
}
use dpscalclua.Double.Milli.{milli}
use dpscalclua.Map.{find}
use dpscalclua.Aura.{Aura}
use dpscalclua.Creature.{get_creature_by_name}
use dpscalclua.Casts.Sleep.{lua_player_sleep_lem}
use dpscalclua.Lua.Casting.{lua_player_sleep, lua_stop_casting}
use dpscalclua.Safety.Core.{cast_post}
use dpscalclua.Player.{Player, stop_casting, is_spell_available, new_player, is_idle}
use dpscalclua.Event.{Event, new_spell_event}
use dpscalclua.EventSystem.{advance}
use dpscalclua.Lua.Dispatch.{call_lua_function, run_fn}
use dpscalclua.Combat.AuraEvents.{remove_when_due}
use dpscalclua.Combat.SpellEvents.{run_spell_event}
use dpscalclua.Simulation.{due, dispatch_event, process_event, main_loop}
use dpscalclua.Store.{World, done, ◌>>=◌}
use dpscalclua.Script.{
  message, Env, returned, player_idle, fn_aura_name_to_id, raised, expected_string,
}
use dpscalclua.Lua.Args.{need_string}
use dpscalclua.Lua.Auras.{lua_aura_name_to_id}
use dpscalclua.Processed.{IsProcessed, process_event-IsProcessed}
use dpscalclua.Errors.Calls.{run_fn-raised}
use dpscalclua.Safety.Meets.{Holds}
use dpscalclua.Safety.Core.{On}
use dpscalclua.Safety.Owned.{Idle}
use dpscalclua.Safety.Spent.{Spent}
use dpscalclua.Safety.Ownership.{main_loop-Idle, dispatch_event-Spent, call_lua_function-Idle}
use dpscalclua.Examples.Scripts.{code}
use dpscalclua.Calculation.{perform}
use dpscalclua.Safety.Cleared.{IsCleared, perform-IsCleared}
use dpscalclua.Event.{the_player, creature}
use dpscalclua.Casts.{with_cast, lua_cast_spell_by_name_lem}
use dpscalclua.Lua.Units.{
  unit_by_name, lua_cast_spell_by_name, lua_target_create, lua_target_destroy,
}
use text.Mathlib.Text.{◌==◌ as str_eq}
use dpscalclua.Spell.{get_spell_by_name, spell_by_name}
use dpscalclua.Totals.{IsAccounted}
use dpscalclua.Errors.Rules.{Leads}
use dpscalclua.Steady.Damage.{main_loop-IsAccounted}
use dpscalclua.Registry.Targets.{IsFree, with_target, lua_target_create_lem}
use dpscalclua.Fading.{with_queue, remove_when_due-early, run_spell_event-stopped}
use dpscalclua.Examples.Stores.{sim, world, world-Idle, pain, applied, cast}

abbrev fresh : World ℕ ℕ
fresh = record world { events = []; has_player = false }

perform-IsCleared_example : Holds IsCleared (perform sim code true true 2 9 fresh)
perform-IsCleared_example =
    perform-IsCleared sim code true true 2 9 fresh refl refl λ e. absurd (cc e)

main_loop-Idle_example : Holds (λ b v. On Idle v) (main_loop sim 2 9 world)
main_loop-Idle_example = main_loop-Idle sim 2 9 world world-Idle

dispatch_event-Spent_example : Holds (λ u v. On (Spent 100 1 none) v) (dispatch_event sim 1 world)
unfolding find
dispatch_event-Spent_example = dispatch_event-Spent sim 100 1 (2 ∷ []) world world-Idle refl

call_lua_function-Idle_example :
    Holds (λ u v. On Idle v) (call_lua_function sim player_idle 0 world)
call_lua_function-Idle_example = call_lua_function-Idle sim player_idle 0 world world-Idle

abbrev waiting : World ℕ ℕ
waiting = record world {
  system = record { game_time = 100; event_map = (150, 1 ∷ 2 ∷ []) ∷ []; exitable = false };
}

process_event-IsProcessed_example :
    IsProcessed 1500 waiting false (record waiting { system = advance waiting.system 1500 })
unfolding process_event due ◌>>=◌
process_event-IsProcessed_example =
    process_event-IsProcessed sim 1 1500 waiting
      (record waiting { system = advance waiting.system 1500 }) false refl

run_fn-raised_example :
    run_fn sim fn_aura_name_to_id [] world ≡ done (raised (expected_string 1)) world
unfolding run_fn lua_aura_name_to_id need_string ◌>>=◌
run_fn-raised_example = run_fn-raised sim fn_aura_name_to_id [] world world (expected_string 1) refl

-- The same, with names for arguments.
abbrev texts : Env ℕ ℕ ℕ
texts = record sim {
  api = record sim.api {
    is_string = λ v. true;
    to_string = λ v. if v == 1 then "Bolt" else "player";
  };
}

lua_cast_spell_by_name_lem_example :
    lua_cast_spell_by_name texts (1 ∷ 2 ∷ []) world
    ≡ done (returned []) (with_cast texts world 1 the_player)
unfolding is_idle get_spell_by_name spell_by_name unit_by_name new_player
lua_cast_spell_by_name_lem_example = lua_cast_spell_by_name_lem texts 1 2 world refl refl refl

abbrev held : Aura ℕ
held = record pain { addr = 9; fade_time = 5000 }

remove_when_due-early_example :
    remove_when_due sim 1 applied pain 9 world ≡ done false (with_queue world 5000 1)
unfolding find
remove_when_due-early_example =
    remove_when_due-early sim 1 9 applied pain held world refl (omega arith) (omega arith)

main_loop-IsAccounted_example : Leads (λ b v. IsAccounted v) (main_loop sim 2 9 world)
main_loop-IsAccounted_example = main_loop-IsAccounted sim 2 9 world λ v e. ground arith

Bolt-IsFree : IsFree world "Bolt"
unfolding unit_by_name get_creature_by_name
Bolt-IsFree = record { not_player = refl; not_target = refl; unknown = refl }

lua_target_create_lem_example :
    (lua_target_create texts (1 ∷ []) world ≡ done (returned []) (with_target world "Bolt"))
    × ((x : String)
        → unit_by_name (with_target world "Bolt") x
          ≡ (if str_eq "Bolt" x then some (creature 10) else unit_by_name world x))
    × (lua_target_create texts (1 ∷ []) (with_target world "Bolt")
        ≡ done (raised (message "Target already exists")) (with_target world "Bolt"))
    × (lua_target_destroy texts (1 ∷ []) (with_target world "Bolt")
        ≡ done (returned []) (record world { next_addr = 11 }))
lua_target_create_lem_example = lua_target_create_lem texts 1 world refl Bolt-IsFree

lua_player_sleep_lem_example :
    (p : Player ℕ) × (lua_player_sleep sim (1500 ∷ []) world
      ≡ done (returned []) (record world { player = p }))
    × ((t spell : ℕ)
        → 100 ≤ t
        → is_spell_available p t spell ≡ leb 1600 t && is_spell_available world.player t spell)
unfolding is_idle new_player
lua_player_sleep_lem_example = lua_player_sleep_lem sim 1500 world refl refl (omega arith)

-- The cast 2 is about to end.
abbrev ending : Event ℕ
ending = record cast { event_type = cast_post }

abbrev casting : World ℕ ℕ
casting = record world {
  events = (1, applied) ∷ (2, ending) ∷ [];
  player = record new_player { casting_spell = some 2; global_cooldown_recovery = 1500 };
}

abbrev halted : World ℕ ℕ
halted = record casting { player = record new_player { global_cooldown_recovery = 1500 } }

run_spell_event-stopped_example :
    (lua_stop_casting sim [] >>= λ r. run_spell_event sim 2) casting ≡ done true halted
unfolding find new_player new_spell_event stop_casting
run_spell_event-stopped_example =
    run_spell_event-stopped sim 2 ending
      (record { spell = 1; crit = false; hit = true; calculated_damage = 0; gcd_recovery = 5 })
      casting refl refl (inl refl) refl
