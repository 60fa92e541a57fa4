-- ===== src/Heap.antt =====
-- Reads and writes through the program's pointers, `new`, `delete`, and calls of the queue.
pub mod Laws
use dpscalclua.Base.{ℕ, suc, ◌%◌, add32}
use dpscalclua.Map.{find, insert, assign, erase}
use dpscalclua.Aura.{Aura, get_aura_by_id}
use dpscalclua.Spell.{Spell, get_spell_by_id}
use dpscalclua.Creature.{AuraMap, creature_at, write_creature}
use dpscalclua.Player.{Player}
use dpscalclua.Event.{Event, CreatureRef, the_player, creature}
use dpscalclua.EventSystem.{add_event}
use dpscalclua.Store.{
  World, M, dangling_event, dangling_aura, dangling_creature, null_pointer, pure, get, modify,
  or_fault, ◌>>=◌, ◌>>◌,
}

module _ {D L : Type 0} where
  unfoldable pub read_event : ℕ → M (World D L) (Event D)
  read_event a = do w ← get; or_fault (dangling_event a) (find a w.events)

  unfoldable pub write_event : Event D → M (World D L) (Unit {0})
  unfolding read_event
  write_event e = do
    old ← read_event e.addr
    modify (λ w. record w { events = assign e.addr e w.events })

  unfoldable pub new_event : (ℕ → Event D) → M (World D L) ℕ
  new_event make = do
    w ← get
    let a = w.next_addr
    modify (λ v. record v { next_addr = suc a; events = insert a (make a) v.events })
    pure a

  unfoldable pub delete_event : ℕ → M (World D L) (Unit {0})
  unfolding read_event
  delete_event a = do e ← read_event a; modify (λ w. record w { events = erase a w.events })

  unfoldable pub read_aura : ℕ → M (World D L) (Aura D)
  read_aura a = do w ← get; or_fault (dangling_aura a) (find a w.auras)

  unfoldable pub write_aura : Aura D → M (World D L) (Unit {0})
  unfolding read_aura
  write_aura x = do
    old ← read_aura x.addr
    modify (λ w. record w { auras = assign x.addr x w.auras })

  -- `new CAura`, with the next GUID.
  unfoldable pub new_heap_aura : (ℕ → ℕ → Aura D) → M (World D L) ℕ
  new_heap_aura make = do
    w ← get
    let a = w.next_addr
    let guid = add32 w.guid_counter 1
    modify (λ v. record v {
      next_addr = suc a;
      guid_counter = guid;
      auras = insert a (make a guid) v.auras;
    })
    pure a

  unfoldable pub delete_aura : ℕ → M (World D L) (Unit {0})
  unfolding read_aura
  delete_aura a = do x ← read_aura a; modify (λ w. record w { auras = erase a w.auras })

  -- `m_auraMap` of a creature behind a pointer.
  unfoldable pub unit_auras : CreatureRef → M (World D L) AuraMap
  unit_auras the_player = do w ← get; pure w.player.auras
  unit_auras (creature c) = do
    w ← get
    x ← or_fault (dangling_creature c) (creature_at w.creatures c)
    pure x.auras

  unfoldable pub set_unit_auras : CreatureRef → AuraMap → M (World D L) (Unit {0})
  set_unit_auras the_player m = modify (λ w. record w { player = record w.player { auras = m } })
  set_unit_auras (creature c) m = do
    w ← get
    x ← or_fault (dangling_creature c) (creature_at w.creatures c)
    modify (λ v. record v { creatures = write_creature v.creatures (record x { auras = m }) })

  unfoldable pub enqueue : (e delay : ℕ) → M (World D L) (Unit {0})
  enqueue e delay = modify (λ w. record w { system = add_event w.system e delay })

  -- `new` of an event and `AddEvent`.
  unfoldable pub spawn : (ℕ → Event D) → (delay : ℕ) → M (World D L) (Unit {0})
  unfolding new_event enqueue
  spawn make delay = do a ← new_event make; enqueue a delay

  unfoldable pub game_time : M (World D L) ℕ
  game_time = do w ← get; pure w.system.game_time

  unfoldable pub the_spell : ℕ → M (World D L) (Spell D)
  the_spell s = do w ← get; or_fault null_pointer (get_spell_by_id w.spell_db s)

  unfoldable pub the_aura : ℕ → M (World D L) (Aura D)
  the_aura a = do w ← get; or_fault null_pointer (get_aura_by_id w.aura_db a)

  unfoldable pub update_player : (Player D → Player D) → M (World D L) (Unit {0})
  update_player f = modify (λ w. record w { player = f w.player })

  -- `rand() % n`, with the sequence of numbers that `rand` gives.
  unfoldable pub draw : (ℕ → ℕ) → ℕ → M (World D L) ℕ
  draw rand n = do w ← get; modify (λ v. record v { draws = suc v.draws }); pure (rand w.draws % n)
