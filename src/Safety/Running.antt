-- ===== src/Safety/Running.antt =====
-- While an event runs: it can be read and written, its routines keep it, and the queue may take it
-- again.
use dpscalclua.Base.{ℕ, suc, ◌≡◌, sym, ◌∙◌, subst, ◌≢◌, true, none, some, arith, add32}
use dpscalclua.Map.{find}
use dpscalclua.Map.Laws.{find-insert_new, find-assign}
use dpscalclua.Event.{Event, Additionals}
use dpscalclua.EventSystem.{add_event}
use dpscalclua.Store.{World, M, ◌>>=◌}
use dpscalclua.Heap.{read_event, write_event, enqueue}
use dpscalclua.Heap.Laws.{bind-done, read_event-done, write_event-done}
use dpscalclua.Safety.Meets.{Holds, Meets}
use dpscalclua.Safety.Queued.{queued-push_at, push_at-IsFront}
use dpscalclua.Safety.Core.{Core, core, On, IsFrame, is_typed, spawned, rewritten}
use dpscalclua.Safety.Owned.{
  fresh, IsOwned-spawned, IsOwned-bumped, IsOwned-rewritten, Slot, IsMine, Busy,
}

module _ {D : Type 0} {s : Slot} {n : ℕ} (c : Core D) (h : Busy s n c) where
  -- A write to the event that keeps its address, its kind, and one of the kind's types.
  Busy-rewritten :
      (t : ℕ) (e : Event D)
      → IsMine (record s { type_bits = t }) e
      → is_typed e ≡ true
      → Busy (record s { type_bits = t }) n (rewritten c e)
  Busy-rewritten t e mine typed =
      let (old, found, was) = h.held in
      let found' : find e.addr c.events ≡ some old = rw mine.at_this found in
      record {
        owned = IsOwned-rewritten c h.owned old e found' typed;
        front = h.front;
        held = (
          e,
          ground (arith, find-assign s.this e.addr e old c.events found', mine.at_this),
          mine,
        );
        running = h.running;
      }

  Busy-spawned :
      (e : Event D) (time : ℕ)
      → e.addr ≡ c.next_addr
      → is_typed e ≡ true
      → Busy s n (spawned c e time)
  Busy-spawned e time addr typed =
      let (old, found, was) = h.held in
      record {
        owned = IsOwned-spawned c h.owned e time addr typed;
        front = push_at-IsFront s.time s.this time c.next_addr c.queue h.front;
        held = (
          old,
          ground (
            arith,
            find-insert_new s.this c.next_addr e c.events (fresh c h.owned),
            h.owned.below s.this old found,
          ),
          was,
        );
        running = h.running;
      }

  Busy-reads : (a : ℕ) → c.current ≡ some a → find a c.events ≢ none
  Busy-reads a run missing =
      let (old, found, was) = h.held in
      let same : some a ≡ some s.this = sym run ∙ h.running in ground arith

  -- The current event is the running one.
  Busy-extras :
      (a : ℕ) (e : Event D) (y : Additionals D)
      → c.current ≡ some a
      → find a c.events ≡ some e
      → (find e.addr c.events ≢ none) × Busy s n (rewritten c (record e { extra = y }))
  Busy-extras a e y run found =
      let (old, there, was) = h.held in
      let same : some a ≡ some s.this = sym run ∙ h.running in
      let one : some e ≡ some old = sym found ∙ (ground (arith, there)) in
      let mine : IsMine s (record e { extra = y }) = record {
        at_this = ground (arith, was.at_this);
        of_type = ground (arith, was.of_type);
        of_kind = ground (arith, was.of_kind);
      } in
      (
        λ missing. ground (arith, h.owned.named a e found),
        Busy-rewritten s.type_bits (record e { extra = y }) mine (h.owned.named a e found).1,
      )

module _ {D : Type 0} {s : Slot} {n : ℕ} where
  pub Busy-IsFrame : IsFrame {D = D} (Busy s n)
  Busy-IsFrame = record {
    spawns = λ c e time h addr typed. Busy-spawned c h e time addr typed;
    bumps = λ c h. record {
      owned = IsOwned-bumped c h.owned;
      front = h.front;
      held = h.held;
      running = h.running;
    };
    reads = λ c a h run. Busy-reads c h a run;
    rewrites = λ c a e y h run found. Busy-extras c h a e y run found;
  }

module _ {D L : Type 0} {s : Slot} {n : ℕ} where
  -- The running event is there, and is what the slot says.
  pub Meets-read_this :
      {A : Type 0} {Q : A → World D L → Type 0} (f : Event D → M (World D L) A)
      → ((e : Event D) → IsMine s e → Meets (On (Busy s n)) (f e) Q)
      → Meets (On (Busy s n)) (read_event s.this >>= f) Q
  Meets-read_this f k = record {
    at = λ w h.
        let (e, found, mine) = h.holds.held in
        subst (Holds _) (sym (bind-done (read_event s.this) f w (read_event-done s.this w e found)))
          ((k e mine).at w h);
  }

  pub Meets-write_this :
      (t : ℕ) (e : Event D)
      → IsMine (record s { type_bits = t }) e
      → is_typed e ≡ true
      → Meets
          (On (Busy s n))
          (write_event {L = L} e)
          (λ _. On (Busy (record s { type_bits = t }) n))
  Meets-write_this t e mine typed = record {
    at = λ w h.
        let (old, found, was) = h.holds.held in
        let found' : find e.addr w.events ≡ some old = rw mine.at_this found in
        subst (Holds _) (sym (write_event-done e old w found'))
          (record { holds = Busy-rewritten (core w) h.holds t e mine typed });
  }

  -- `AddEvent(this, delay)`.
  pub Meets-enqueue_this :
      (delay : ℕ)
      → Meets (On (Busy s n)) (enqueue {D = D} {L = L} s.this delay) (λ _. On (Busy s (suc n)))
  unfolding enqueue add_event ◌>>=◌
  Meets-enqueue_this delay = record {
    at = λ w h.
        let time = add32 w.system.game_time delay in
        let queue = w.system.event_map in
        record {
          holds = record {
            owned = record {
              sorted = h.holds.owned.sorted;
              below = h.holds.owned.below;
              named = h.holds.owned.named;
              counted =
                  λ b. ground (arith, h.holds.owned.counted b, queued-push_at b time s.this queue);
            };
            front = push_at-IsFront s.time s.this time s.this queue h.holds.front;
            held = h.holds.held;
            running = h.holds.running;
          };
        };
  }
