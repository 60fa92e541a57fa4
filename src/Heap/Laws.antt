-- ===== src/Heap/Laws.antt =====
-- What reads and writes give when the object is there, and how a step goes on after its first part.
use dpscalclua.Base.{ℕ, ◌≡◌, refl, some, arith}
use dpscalclua.Map.{find, assign}
use dpscalclua.Event.{Event}
use dpscalclua.Store.{World, M, done, modify, or_fault, ◌>>=◌}
use dpscalclua.Aura.{Aura, get_aura_by_id}
use dpscalclua.EventSystem.{add_event}
use dpscalclua.Heap.{read_event, write_event, read_aura, the_aura, game_time, enqueue}

pub bind-done :
    {S A B : Type 0} (m : M S A) (f : A → M S B) (s : S) {t : S} {a : A}
    → m s ≡ done a t
    → (m >>= f) s ≡ f a t
unfolding ◌>>=◌
bind-done m f s h = rw (h, ◌>>=◌)

module _ {D L : Type 0} where
  pub read_event-done :
      (a : ℕ) (w : World D L) (e : Event D) → find a w.events ≡ some e → read_event a w ≡ done e w
  unfolding read_event ◌>>=◌
  read_event-done a w e h = rw (h, or_fault)

  pub write_event-done :
      (e old : Event D) (w : World D L)
      → find e.addr w.events ≡ some old
      → write_event e w ≡ done tt (record w { events = assign e.addr e w.events })
  unfolding write_event read_event ◌>>=◌
  write_event-done e old w h = ground arith

  pub read_aura-done :
      (a : ℕ) (w : World D L) (x : Aura D) → find a w.auras ≡ some x → read_aura a w ≡ done x w
  unfolding read_aura ◌>>=◌
  read_aura-done a w x h = rw (h, or_fault) refl

  pub the_aura-done :
      (a : ℕ) (w : World D L) (x : Aura D)
      → get_aura_by_id w.aura_db a ≡ some x
      → the_aura a w ≡ done x w
  unfolding the_aura ◌>>=◌
  the_aura-done a w x h = rw (h, or_fault) refl

  pub game_time-done : (w : World D L) → game_time w ≡ done w.system.game_time w
  unfolding game_time ◌>>=◌
  game_time-done w = refl

  pub enqueue-done :
      (e delay : ℕ) (w : World D L)
      → enqueue e delay w ≡ done tt (record w { system = add_event w.system e delay })
  unfolding enqueue modify
  enqueue-done e delay w = refl
