-- ===== src/Examples/Rounds.antt =====
-- The theorems on whole runs, on rounds of the loop, and on the queue.
use dpscalclua.Base.{ℕ, ◌≡◌, refl, true, false, [], ◌∷◌, some, arith}
use dpscalclua.Double.Milli.{milli}
use dpscalclua.Map.{find}
use dpscalclua.Player.{new_player, is_idle, get_spell_cooldown}
use dpscalclua.EventSystem.{advance}
use dpscalclua.Store.{World, done, ◌>>=◌}
use dpscalclua.Script.{Env, finish}
use dpscalclua.Lua.Dispatch.{run_prog, call_lua_function}
use dpscalclua.Simulation.{due, process_event, round, main_loop}
use dpscalclua.Calculation.{perform}
use dpscalclua.Calculation.Again.{left_by, perform-left_by}
use dpscalclua.Queue.Shape.{IsOrdered}
use dpscalclua.Errors.Rules.{Leads}
use dpscalclua.Steady.Rules.{IsStamped, output}
use dpscalclua.Steady.Loop.{process_event-IsStamped}
use dpscalclua.Steady.Damage.{main_loop-IsOrdered}
use dpscalclua.Steady.Result.{IsSettled, perform-IsSettled}
use dpscalclua.Rounds.Clock.{HasStamps, Ticks, round-Ticks}
use dpscalclua.Rounds.Spin.{IsWaiting, main_loop-spins}
use dpscalclua.Examples.Stores.{sim, world}
use dpscalclua.Examples.Scripts.{code}

abbrev unset : World ℕ ℕ
unset = record world { has_player = false; events = [] }

perform-IsSettled_example :
    Leads
      (IsSettled code true (record (output unset) { save = true; table = [] }))
      (perform sim code true true 2 9 unset)
perform-IsSettled_example = perform-IsSettled sim code true true 2 9 unset

main_loop-IsOrdered_example : Leads (λ b v. IsOrdered v.system.event_map) (main_loop sim 2 9 world)
main_loop-IsOrdered_example =
    main_loop-IsOrdered sim 2 9 world
      (record { sorted = (omega arith, tt); filled = ((omega arith, λ e. cc e), tt) })

-- The scripts do nothing.
abbrev quiet : Env ℕ ℕ ℕ
quiet = record sim { script = λ hook n l. finish true l }

abbrev later : World ℕ ℕ
later = record world {
  system = record { game_time = 100; event_map = (150, 1 ∷ 2 ∷ []) ∷ []; exitable = false };
}

abbrev moved : World ℕ ℕ
moved = record world {
  system = record { game_time = 150; event_map = (150, 1 ∷ 2 ∷ []) ∷ []; exitable = false };
}

stamps : HasStamps later.player
unfolding new_player find
stamps = record { global = omega arith; own = λ t e. absurd (cc e) }

round-Ticks_example : Ticks later false moved
unfolding round process_event due advance call_lua_function run_prog is_idle get_spell_cooldown
    new_player find ◌>>=◌
round-Ticks_example = round-Ticks quiet 1 later moved false (omega arith) stamps refl

process_event-IsStamped_example : IsStamped 100 (some []) (some [])
unfolding process_event due advance ◌>>=◌
process_event-IsStamped_example = process_event-IsStamped quiet 1 0 later moved (some false) refl

abbrev empty : World ℕ ℕ
empty = record world { system = record { game_time = 100; event_map = []; exitable = false } }

empty-IsWaiting : IsWaiting empty
unfolding new_player find
empty-IsWaiting = record {
  open_end = refl;
  early = omega arith;
  no_event = refl;
  no_cast = refl;
  no_global_cooldown = omega arith;
  no_cooldown = refl;
}

main_loop-spins_example :
    (k : ℕ) × (main_loop quiet 5 2 empty ≡ done false (record empty { lua = k }))
main_loop-spins_example = main_loop-spins quiet (λ l. (true, l, refl)) 5 1 empty empty-IsWaiting

perform-left_by_example :
    perform sim code true true 2 9 (left_by later unset) ≡ perform sim code true true 2 9 unset
perform-left_by_example = perform-left_by sim code true true 2 9 later unset refl refl
