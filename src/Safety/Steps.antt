-- ===== src/Safety/Steps.antt =====
-- The steps on the heap, under a property of the core that every routine keeps.
use dpscalclua.Base.{ℕ, ◌≡◌, true, add32}
use dpscalclua.Aura.{Aura}
use dpscalclua.Creature.{AuraMap}
use dpscalclua.Player.{Player}
use dpscalclua.Event.{Event, CreatureRef, the_player, creature}
use dpscalclua.EventSystem.{add_event}
use dpscalclua.Store.{◌>>=◌}
use dpscalclua.Heap.{
  read_aura, write_aura, new_heap_aura, delete_aura, unit_auras, set_unit_auras, spawn, game_time,
  the_spell, the_aura, update_player, draw,
}
use dpscalclua.Safety.Meets.{Keeps}
use dpscalclua.Safety.Core.{Core, core, On, IsFrame, is_typed, frame_rules}

module _ {D L : Type 0} {P : Core D → Type 0} where
  pub Keeps-read_aura : (a : ℕ) → Keeps (On P) (read_aura {D = D} {L = L} a)
  unfolding read_aura
  Keeps-read_aura a = search frame_rules

  pub Keeps-write_aura : (x : Aura D) → Keeps (On P) (write_aura {D = D} {L = L} x)
  unfolding write_aura
  Keeps-write_aura x = search (frame_rules, Keeps-read_aura)

  pub Keeps-delete_aura : (a : ℕ) → Keeps (On P) (delete_aura {D = D} {L = L} a)
  unfolding delete_aura
  Keeps-delete_aura a = search (frame_rules, Keeps-read_aura)

  pub Keeps-unit_auras : (u : CreatureRef) → Keeps (On P) (unit_auras {D = D} {L = L} u)
  unfolding unit_auras
  Keeps-unit_auras the_player = search frame_rules
  Keeps-unit_auras (creature c) = search frame_rules

  pub Keeps-set_unit_auras :
      (u : CreatureRef) (m : AuraMap) → Keeps (On P) (set_unit_auras {D = D} {L = L} u m)
  unfolding set_unit_auras
  Keeps-set_unit_auras the_player m = search frame_rules
  Keeps-set_unit_auras (creature c) m = search frame_rules

  pub Keeps-game_time : Keeps (On P) (game_time {D = D} {L = L})
  unfolding game_time
  Keeps-game_time = search frame_rules

  pub Keeps-the_spell : (s : ℕ) → Keeps (On P) (the_spell {D = D} {L = L} s)
  unfolding the_spell
  Keeps-the_spell s = search frame_rules

  pub Keeps-the_aura : (a : ℕ) → Keeps (On P) (the_aura {D = D} {L = L} a)
  unfolding the_aura
  Keeps-the_aura a = search frame_rules

  pub Keeps-update_player :
      (f : Player D → Player D) → Keeps (On P) (update_player {D = D} {L = L} f)
  unfolding update_player
  Keeps-update_player f = search frame_rules

  pub Keeps-draw : (rand : ℕ → ℕ) (n : ℕ) → Keeps (On P) (draw {D = D} {L = L} rand n)
  unfolding draw
  Keeps-draw rand n = search frame_rules

-- What the frame allows.
module _ {D L : Type 0} {P : Core D → Type 0} (F : IsFrame P) where
  pub Keeps-spawn :
      (make : ℕ → Event D) (delay : ℕ)
      → ((a : ℕ) → ((make a).addr ≡ a) × (is_typed (make a) ≡ true))
      → Keeps (On P) (spawn {D = D} {L = L} make delay)
  unfolding spawn add_event ◌>>=◌
  Keeps-spawn make delay good = record {
    at = λ w h.
        let a = w.next_addr in
        record {
          holds =
              F.spawns (core w) (make a) (add32 w.system.game_time delay) h.holds (good a).0
                (good a).1;
        };
  }

  pub Keeps-new_heap_aura :
      (make : ℕ → ℕ → Aura D) → Keeps (On P) (new_heap_aura {D = D} {L = L} make)
  unfolding new_heap_aura ◌>>=◌
  Keeps-new_heap_aura make = record { at = λ w h. record { holds = F.bumps (core w) h.holds } }

pub ruleset heap_rules = (
  frame_rules, Keeps-read_aura, Keeps-write_aura, Keeps-delete_aura, Keeps-unit_auras,
  Keeps-set_unit_auras, Keeps-game_time, Keeps-the_spell, Keeps-the_aura, Keeps-update_player,
  Keeps-draw,
)
