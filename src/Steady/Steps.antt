-- ===== src/Steady/Steps.antt =====
-- The steps on the heap leave the clock alone.
use dpscalclua.Base.{ℕ, refl, [], add32, add32-lt}
use dpscalclua.Store.{modify}
use dpscalclua.Queue.Shape.{push_at-IsOrdered}
use dpscalclua.Aura.{Aura}
use dpscalclua.Creature.{AuraMap}
use dpscalclua.Player.{Player}
use dpscalclua.Event.{Event, CreatureRef, the_player, creature}
use dpscalclua.EventSystem.{add_event}
use dpscalclua.Steady.Rules.{Stays, stay_rules}
use dpscalclua.Heap.{
  read_event, write_event, delete_event, new_event, enqueue, read_aura, write_aura, new_heap_aura,
  delete_aura, unit_auras, set_unit_auras, spawn, game_time, the_spell, the_aura, update_player,
  draw,
}

module _ {D L : Type 0} where
  pub Stays-read_aura : (a : ℕ) → Stays (read_aura {D = D} {L = L} a)
  unfolding read_aura
  Stays-read_aura a = search stay_rules

  pub Stays-write_aura : (x : Aura D) → Stays (write_aura {D = D} {L = L} x)
  unfolding write_aura
  Stays-write_aura x = search (stay_rules, Stays-read_aura)

  pub Stays-delete_aura : (a : ℕ) → Stays (delete_aura {D = D} {L = L} a)
  unfolding delete_aura
  Stays-delete_aura a = search (stay_rules, Stays-read_aura)

  pub Stays-unit_auras : (u : CreatureRef) → Stays (unit_auras {D = D} {L = L} u)
  unfolding unit_auras
  Stays-unit_auras the_player = search stay_rules
  Stays-unit_auras (creature c) = search stay_rules

  pub Stays-set_unit_auras :
      (u : CreatureRef) (m : AuraMap) → Stays (set_unit_auras {D = D} {L = L} u m)
  unfolding set_unit_auras
  Stays-set_unit_auras the_player m = search stay_rules
  Stays-set_unit_auras (creature c) m = search stay_rules

  pub Stays-game_time : Stays (game_time {D = D} {L = L})
  unfolding game_time
  Stays-game_time = search stay_rules

  pub Stays-the_spell : (s : ℕ) → Stays (the_spell {D = D} {L = L} s)
  unfolding the_spell
  Stays-the_spell s = search stay_rules

  pub Stays-the_aura : (a : ℕ) → Stays (the_aura {D = D} {L = L} a)
  unfolding the_aura
  Stays-the_aura a = search stay_rules

  pub Stays-update_player : (f : Player D → Player D) → Stays (update_player {D = D} {L = L} f)
  unfolding update_player
  Stays-update_player f = search stay_rules

  pub Stays-draw : (rand : ℕ → ℕ) (n : ℕ) → Stays (draw {D = D} {L = L} rand n)
  unfolding draw
  Stays-draw rand n = search stay_rules

  pub Stays-read_event : (a : ℕ) → Stays (read_event {D = D} {L = L} a)
  unfolding read_event
  Stays-read_event a = search stay_rules

  pub Stays-write_event : (e : Event D) → Stays (write_event {D = D} {L = L} e)
  unfolding write_event
  Stays-write_event e = search (stay_rules, Stays-read_event)

  pub Stays-delete_event : (a : ℕ) → Stays (delete_event {D = D} {L = L} a)
  unfolding delete_event
  Stays-delete_event a = search (stay_rules, Stays-read_event)

  Stays-new_event : (make : ℕ → Event D) → Stays (new_event {D = D} {L = L} make)
  unfolding new_event
  Stays-new_event make = search stay_rules

  pub Stays-enqueue : (e delay : ℕ) → Stays (enqueue {D = D} {L = L} e delay)
  unfolding enqueue add_event modify
  Stays-enqueue e delay = record {
    at = λ w. record {
      steady = refl;
      counted = λ c. c;
      detailed = refl;
      stamped = λ l g. ([], g, tt);
      ordered =
          push_at-IsOrdered (add32 w.system.game_time delay) e w.system.event_map
            (add32-lt w.system.game_time delay);
      listed = refl;
    };
  }

  pub Stays-spawn : (make : ℕ → Event D) (delay : ℕ) → Stays (spawn {D = D} {L = L} make delay)
  unfolding spawn
  Stays-spawn make delay = search (stay_rules, Stays-new_event, Stays-enqueue)

  pub Stays-new_heap_aura : (make : ℕ → ℕ → Aura D) → Stays (new_heap_aura {D = D} {L = L} make)
  unfolding new_heap_aura
  Stays-new_heap_aura make = search stay_rules

pub ruleset steady_rules = (
  stay_rules, Stays-read_aura, Stays-write_aura, Stays-delete_aura, Stays-unit_auras,
  Stays-set_unit_auras, Stays-game_time, Stays-the_spell, Stays-the_aura, Stays-update_player,
  Stays-draw, Stays-read_event, Stays-write_event, Stays-delete_event, Stays-enqueue, Stays-spawn,
  Stays-new_heap_aura,
)
