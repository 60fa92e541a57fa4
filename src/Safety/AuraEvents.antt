-- ===== src/Safety/AuraEvents.antt =====
-- `CAuraEvent::operator()` keeps the events owned, and deletes itself exactly if it is not queued again.
use dpscalclua.Base.{ℕ, ◌≡◌, refl, sym, subst, Bool, true, false, some, arith}
use dpscalclua.Double.{Double}
use dpscalclua.Map.{find}
use dpscalclua.Aura.{Aura}
use dpscalclua.Event.{
  Event, Additionals, AuraPart, Body, of_spell, of_aura, map_aura, new_aura_event,
}
use dpscalclua.Store.{World, M, done, pure, ◌>>=◌}
use dpscalclua.Script.{Env}
use dpscalclua.Heap.{enqueue}
use dpscalclua.Heap.Laws.{bind-done, read_event-done}
use dpscalclua.Combat.AuraEvents.{
  aura_part_of, read_aura_event, set_part, refresh_aura, new_fade_time, follow_up, apply_new_aura,
  run_application, same_aura, remove_when_due, run_removal,
}
use dpscalclua.Safety.Meets.{Holds, Meets, Keeps, Meets-bind}
use dpscalclua.Safety.Core.{core, On, is_spell, has_type}
use dpscalclua.Safety.Steps.{heap_rules, Keeps-spawn, Keeps-new_heap_aura}
use dpscalclua.Safety.Routines.{Keeps-call_lua_function}
use dpscalclua.Safety.Owned.{Slot, IsMine, Busy}
use dpscalclua.Safety.Running.{Busy-IsFrame, Meets-write_this, Meets-enqueue_this}

abbrev pub left : Bool → ℕ
left true = 0
left false = 1

-- The end of `operator()` with its result: to be deleted and not queued again, or the other way round.
pub record Ended {D L : Type 0} (s : Slot) (over : Bool) (w : World D L) : Type 0 where
  pub final_type : ℕ
  pub holds : Busy (record s { type_bits = final_type }) (left over) (core w)

module _ {D L : Type 0} {s : Slot} where
  pub Ends-over : Meets (On (Busy {D = D} s 0)) (pure {S = World D L} true) (Ended s)
  unfolding pure
  Ends-over = record { at = λ w h. record { final_type = s.type_bits; holds = h.holds } }

  Ends-again : Meets (On (Busy {D = D} s 1)) (pure {S = World D L} false) (Ended s)
  unfolding pure
  Ends-again = record { at = λ w h. record { final_type = s.type_bits; holds = h.holds } }

  pub Ends-enqueue :
      (delay : ℕ)
      → Meets (On (Busy {D = D} s 0)) (enqueue {L = L} s.this delay >>= λ _. pure false) (Ended s)
  Ends-enqueue delay =
      Meets-bind (λ _. On (Busy s 1)) _ _ (Meets-enqueue_this delay) λ _. Ends-again

-- A slot of an aura event.
pub record IsAuraSlot (s : Slot) : Type 0 where
  pub is_aura : s.kind ≡ false
  pub aura_type : has_type false s.type_bits ≡ true

pub IsMine-extra :
    {D : Type 0} {s : Slot} (e : Event D) (y : Additionals D)
    → IsMine s e
    → IsMine s (record e { extra = y })
IsMine-extra e y m = record { at_this = m.at_this; of_type = m.of_type; of_kind = m.of_kind }

aura_body : (b : Body) → is_spell b ≡ false → (a : AuraPart) × (b ≡ of_aura a)
aura_body (of_aura a) h = (a, refl)
aura_body (of_spell s) h = cc

pub read_aura_event-done :
    {D L : Type 0} (this : ℕ) (w : World D L) (e : Event D) (a : AuraPart)
    → find this w.events ≡ some e
    → e.body ≡ of_aura a
    → read_aura_event this w ≡ done (e, a) w
unfolding read_aura_event aura_part_of ◌>>=◌
read_aura_event-done this w e a found body = ground (arith, read_event-done this w e found)

module _ {D L : Type 0} {s : Slot} {n : ℕ} (k : IsAuraSlot s) where
  pub Meets-read_aura_this :
      {A : Type 0} {Q : A → World D L → Type 0} (f : Event D × AuraPart → M (World D L) A)
      → ((e : Event D) (a : AuraPart) → IsMine s e → Meets (On (Busy s n)) (f (e, a)) Q)
      → Meets (On (Busy s n)) (read_aura_event s.this >>= f) Q
  Meets-read_aura_this f g = record {
    at = λ w h.
        let (e, found, mine) = h.holds.held in
        let (a, body) = aura_body e.body (ground (arith, mine.of_kind, k.is_aura)) in
        subst (Holds _)
          (sym
            (bind-done (read_aura_event s.this) f w (read_aura_event-done s.this w e a found body)))
          ((g e a mine).at w h);
  }

  pub Keeps-set_part :
      (e : Event D) (a : AuraPart) → IsMine s e → Keeps (On (Busy s n)) (set_part {L = L} e a)
  unfolding set_part
  Keeps-set_part e a m =
      Meets-write_this s.type_bits (record e { body = of_aura a })
        (record { at_this = m.at_this; of_type = m.of_type; of_kind = sym k.is_aura })
        (ground (arith, m.of_type, k.aura_type))

module _ {D V L : Type 0} ⦃d : Double D⦄ (env : Env D V L) {s : Slot} (k : IsAuraSlot s) where
  Keeps-refresh_aura :
      (e : Event D) (a : AuraPart) (t : Aura D) (addr : ℕ)
      → IsMine s e
      → Keeps (On (Busy s 0)) (refresh_aura {L = L} env e a t addr)
  unfolding refresh_aura
  Keeps-refresh_aura e a t addr m = search (heap_rules, Keeps-set_part k) depth 20

  Keeps-new_fade_time :
      (e : Event D) (a : AuraPart) (t : Aura D)
      → Keeps (On (Busy s 0)) (new_fade_time {L = L} env e a t)
  unfolding new_fade_time
  Keeps-new_fade_time e a t = search heap_rules depth 12

  Keeps-follow_up :
      (e : Event D) (a : AuraPart) (kind delay : ℕ) (set : AuraPart → AuraPart)
      → has_type false kind ≡ true
      → Keeps (On (Busy s 0)) (follow_up {L = L} env e a kind delay set)
  unfolding follow_up new_aura_event map_aura
  Keeps-follow_up e a kind delay set typed = Keeps-spawn Busy-IsFrame _ delay λ x. (refl, typed)

  Keeps-apply_new_aura :
      (e : Event D) (a : AuraPart) (t : Aura D)
      → IsMine s e
      → Keeps (On (Busy s 0)) (apply_new_aura {L = L} env e a t)
  unfolding apply_new_aura
  Keeps-apply_new_aura e a t m =
      search
        (
          heap_rules,
          Keeps-set_part k,
          Keeps-new_heap_aura Busy-IsFrame,
          Keeps-new_fade_time,
          Keeps-follow_up,
        )
        depth 30

  pub Meets-run_application : Meets (On (Busy s 0)) (run_application {L = L} env s.this) (Ended s)
  unfolding run_application
  Meets-run_application =
      search
        (
          heap_rules,
          Meets-read_aura_this k,
          Keeps-call_lua_function env Busy-IsFrame,
          Ends-over,
          Keeps-refresh_aura,
          Keeps-apply_new_aura,
        )
        depth 30

  pub Keeps-same_aura :
      (e : Event D) (a : AuraPart) (t : Aura D)
      → Keeps (On (Busy s 0)) (same_aura {L = L} env e a t)
  unfolding same_aura
  Keeps-same_aura e a t = search heap_rules depth 12

  Meets-remove_when_due :
      (e : Event D) (t : Aura D) (addr : ℕ)
      → Meets (On (Busy s 0)) (remove_when_due {L = L} env s.this e t addr) (Ended s)
  unfolding remove_when_due
  Meets-remove_when_due e t addr =
      search (heap_rules, Keeps-call_lua_function env Busy-IsFrame, Ends-over, Ends-enqueue) depth
        30

  pub Meets-run_removal : Meets (On (Busy s 0)) (run_removal {L = L} env s.this) (Ended s)
  unfolding run_removal
  Meets-run_removal =
      search (heap_rules, Meets-read_aura_this k, Keeps-same_aura, Ends-over, Meets-remove_when_due)
        depth 30
