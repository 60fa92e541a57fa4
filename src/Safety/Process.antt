-- ===== src/Safety/Process.antt =====
-- One event, from `SetCurrentEvent(pEvent)` to `SetCurrentEvent(NULL)`: it is there, runs, and is deleted
-- or queued again.
use dpscalclua.Base.{ℕ, ◌≡◌, refl, sym, subst, true, none, some, arith}
use dpscalclua.Double.{Double}
use dpscalclua.Map.{find}
use dpscalclua.Event.{Event, CreatureRef, Body, of_spell, of_aura}
use dpscalclua.Store.{World, modify, when, ◌>>=◌, ◌>>◌}
use dpscalclua.Script.{Env}
use dpscalclua.Heap.{read_event, delete_event}
use dpscalclua.Heap.Laws.{bind-done, read_event-done}
use dpscalclua.Simulation.{set_current, set_pointer, run_body, dispatch_event}
use dpscalclua.Safety.Meets.{Holds, Meets, Meets-bind}
use dpscalclua.Safety.Queued.{IsFront}
use dpscalclua.Safety.Core.{core, On, is_spell, is_typed, has_type}
use dpscalclua.Safety.Owned.{Slot, Busy, Idle}
use dpscalclua.Safety.AuraEvents.{Ended}
use dpscalclua.Safety.Ticks.{Meets-run_aura_event}
use dpscalclua.Safety.SpellEvents.{Meets-run_spell_event}
use dpscalclua.Safety.Spent.{
  Spent, slot_of, front_event, started, Meets-delete_this, Meets-clear_current,
}

module _ {D L : Type 0} where
  -- An event is chosen: the store is between two events, and the event is at the front of its entry.
  pub record Chosen (t a : ℕ) (w : World D L) : Type 0 where
    pub idle : On Idle w
    pub front : IsFront t a w.system.event_map

  record Found (t a : ℕ) (e : Event D) (w : World D L) : Type 0 where
    chosen : Chosen t a w
    there : find a w.events ≡ some e

  Meets-set_current :
      (t a : ℕ) (e : Event D) (u : CreatureRef)
      → Meets (Found t a e) (set_current (some a) (some u)) (λ _. On (Busy (slot_of t a e) 0))
  unfolding set_current modify set_pointer
  Meets-set_current t a e u = record {
    at = λ w h.
        let c = core w in
        let busy = started c t a e h.chosen.idle.holds h.chosen.front h.there in
        record {
          holds =
              subst
                (λ o. Busy (slot_of t a e) 0 (record c { current = (set_pointer o (some a)).0 }))
                (sym h.chosen.idle.holds.stopped) busy;
        };
  }

  is_typed_there : (t a : ℕ) (e : Event D) (w : World D L) → Found t a e w → is_typed e ≡ true
  is_typed_there t a e w h = (h.chosen.idle.holds.owned.named a e h.there).1

module _ {D V L : Type 0} ⦃d : Double D⦄ (env : Env D V L) where
  Meets-run_body :
      (s : Slot) (b : Body)
      → is_spell b ≡ s.kind
      → has_type s.kind s.type_bits ≡ true
      → Meets (On (Busy s 0)) (run_body {L = L} env s.this b) (Ended s)
  unfolding run_body
  Meets-run_body s (of_spell x) kind typed =
      Meets-run_spell_event env (record { is_spell = sym kind; spell_type = ground arith })
  Meets-run_body s (of_aura x) kind typed =
      Meets-run_aura_event env (record { is_aura = sym kind; aura_type = ground arith })

  Meets-rest_of_dispatch :
      (t a : ℕ) (e : Event D)
      → is_typed e ≡ true
      → Meets
          (Found t a e)
          (do
            set_current (some a) (some e.target)
            over ← run_body env a e.body
            when over (delete_event a)
            set_current none none)
          (λ _. On (Spent {D = D} t a none))
  Meets-rest_of_dispatch t a e typed =
      Meets-bind (λ _. On (Busy (slot_of t a e) 0)) _ _ (Meets-set_current t a e e.target)
        λ u.
          Meets-bind (Ended (slot_of t a e)) _ _ (Meets-run_body (slot_of t a e) e.body refl typed)
            λ over.
              Meets-bind (λ _. On (Spent t a (some a))) _ _ (Meets-delete_this (slot_of t a e) over)
                λ v. Meets-clear_current t a

  -- The event that is dispatched is there, runs, and is then deleted or queued again, not both.
  pub Meets-dispatch_event :
      (t a : ℕ) → Meets (Chosen t a) (dispatch_event {L = L} env a) (λ _. On (Spent t a none))
  unfolding dispatch_event
  Meets-dispatch_event t a = record {
    at = λ w h.
        let (e, there) = front_event (core w) t a h.idle.holds h.front in
        let found : Found t a e w = record { chosen = h; there = there } in
        subst (Holds _) (sym (bind-done (read_event a) _ w (read_event-done a w e there)))
          ((Meets-rest_of_dispatch t a e (is_typed_there t a e w found)).at w found);
  }
