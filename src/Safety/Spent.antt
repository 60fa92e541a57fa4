-- ===== src/Safety/Spent.antt =====
-- The state of the ownership around one turn of the loop of `ProcessEvent`: an event is chosen, has run,
-- is deleted or kept, and leaves the front of its entry.
use dpscalclua.Base.{
  ℕ, ◌≡◌, refl, sym, subst, Bool, true, false, Option, none, some, inl, inr, arith, Option-cases,
}
use dpscalclua.Map.{find, erase}
use dpscalclua.Map.Laws.{From-erase, find-erase}
use dpscalclua.Event.{Event}
use dpscalclua.EventSystem.{pop_front}
use dpscalclua.Store.{modify, when, ◌>>=◌}
use dpscalclua.Heap.{read_event, delete_event}
use dpscalclua.Heap.Laws.{bind-done, read_event-done}
use dpscalclua.Simulation.{set_current, set_pointer}
use dpscalclua.Safety.Meets.{Holds, Meets}
use dpscalclua.Safety.Queued.{one_if, IsFront, queued-pop_front}
use dpscalclua.Safety.Core.{Core, core, On, is_spell}
use dpscalclua.Safety.Owned.{IsOwned, Slot, Busy, Idle}
use dpscalclua.Safety.AuraEvents.{Ended}

-- An event has run: it is deleted or queued again, and still stands at the front of its entry.
pub record Spent {D : Type 0} (t a : ℕ) (o : Option ℕ) (c : Core D) : Type 0 where
  pub owned : IsOwned (one_if a) c
  pub front : IsFront t a c.queue
  pub running : c.current ≡ o

abbrev pub slot_of : {D : Type 0} → ℕ → ℕ → Event D → Slot
slot_of t a e = record { time = t; this = a; kind = is_spell e.body; type_bits = e.event_type }

module _ {D : Type 0} where
  -- What stands in the queue is there.
  pub front_event :
      (c : Core D) (t a : ℕ)
      → Idle c
      → IsFront t a c.queue
      → (e : Event D) × (find a c.events ≡ some e)
  front_event c t a h (rest, f) = elim (Option-cases (find a c.events)) [
    | inl e ↦ absurd (ground (arith, e, h.owned.counted a, queued-pop_front a t a rest c.queue f))
    | inr found ↦ found
  ]

  -- `SetCurrentEvent(pEvent)`.
  pub started :
      (c : Core D) (t a : ℕ) (e : Event D)
      → Idle c
      → IsFront t a c.queue
      → find a c.events ≡ some e
      → Busy (slot_of t a e) 0 (record c { current = some a })
  started c t a e h f found = record {
    owned = record {
      sorted = h.owned.sorted;
      below = h.owned.below;
      named = h.owned.named;
      counted = λ b. ground (arith, h.owned.counted b);
    };
    front = f;
    held = (
      e,
      found,
      record { at_this = (h.owned.named a e found).0; of_type = refl; of_kind = refl },
    );
    running = refl;
  }

  erased :
      (s : Slot) (c : Core D)
      → Busy s 0 c
      → Spent s.time s.this (some s.this) (record c { events = erase s.this c.events })
  erased s c h =
      let (e, found, mine) = h.held in
      let gone = λ (b : ℕ). find-erase b s.this 0 c.events h.owned.sorted in
      record {
        owned = record {
          sorted = From-erase s.this 0 c.events h.owned.sorted;
          below = λ b x g. ground (arith, gone b, h.owned.below b x);
          named = λ b x g. ground (arith, gone b, h.owned.named b x);
          counted = λ b. ground (arith, gone b, found, h.owned.counted b);
        };
        front = h.front;
        running = h.running;
      }

  kept : (s : Slot) (c : Core D) → Busy s 1 c → Spent s.time s.this (some s.this) c
  kept s c h = record {
    owned = record {
      sorted = h.owned.sorted;
      below = h.owned.below;
      named = h.owned.named;
      counted = λ b. ground (arith, h.owned.counted b);
    };
    front = h.front;
    running = h.running;
  }

  pub popped :
      (t a : ℕ) (c : Core D) → Spent t a none c → Idle (record c { queue = pop_front t c.queue })
  popped t a c h =
      let (rest, f) = h.front in
      record {
        owned = record {
          sorted = h.owned.sorted;
          below = h.owned.below;
          named = h.owned.named;
          counted = λ b. omega (arith, h.owned.counted b, queued-pop_front b t a rest c.queue f);
        };
        stopped = h.running;
      }

module _ {D L : Type 0} where
  pub Meets-delete_this :
      (s : Slot) (over : Bool)
      → Meets
          (Ended {D = D} {L = L} s over)
          (when over (delete_event s.this))
          (λ _. On (Spent s.time s.this (some s.this)))
  unfolding when delete_event ◌>>=◌
  Meets-delete_this s true = record {
    at = λ w h.
        let (e, found, mine) = h.holds.held in
        subst (Holds _) (sym (bind-done (read_event s.this) _ w (read_event-done s.this w e found)))
          (record { holds = erased (record s { type_bits = h.final_type }) (core w) h.holds });
  }
  Meets-delete_this s false = record {
    at = λ w h. record { holds = kept (record s { type_bits = h.final_type }) (core w) h.holds };
  }

  -- `SetCurrentEvent(NULL)`.
  pub Meets-clear_current :
      (t a : ℕ)
      → Meets
          (On (Spent {D = D} t a (some a)))
          (set_current {L = L} none none)
          (λ _. On (Spent t a none))
  unfolding set_current modify set_pointer
  Meets-clear_current t a = record {
    at = λ w h. record {
      holds = record {
        owned = record {
          sorted = h.holds.owned.sorted;
          below = h.holds.owned.below;
          named = h.holds.owned.named;
          counted = h.holds.owned.counted;
        };
        front = h.holds.front;
        running = rw h.holds.running refl;
      };
    };
  }
