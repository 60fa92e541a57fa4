-- ===== src/Safety/Owned.antt =====
-- Who owns the event objects: each one stands in the queue exactly once, and while an event runs, the
-- running one also at the front of the entry that is due.
use dpscalclua.Base.{
  ℕ, suc, ◌+◌, ◌<◌, ◌≡◌, Bool, true, none, some, inl, inr, arith, ◌==◌, if◌then◌else◌, Option-cases,
}
use dpscalclua.Map.{Map, find, From}
use dpscalclua.Map.Laws.{From-insert, From-assign, find-insert_new, find-assign}
use dpscalclua.Event.{Event}
use dpscalclua.Safety.Queued.{queued, queued-push_at, IsFront}
use dpscalclua.Safety.Core.{Core, IsFrame, is_spell, is_typed, spawned, rewritten}

abbrev pub alloc {ℓ} : {V : Type ℓ} → ℕ → Map V → ℕ
alloc b m = elim (find b m) [ none ↦ 0 | some v ↦ 1 ]

pub record IsOwned {D : Type 0} (extra : ℕ → ℕ) (c : Core D) : Type 0 where
  pub sorted : From 0 c.events
  pub below : (b : ℕ) (e : Event D) → find b c.events ≡ some e → b < c.next_addr
  pub named : (b : ℕ) (e : Event D) → find b c.events ≡ some e → (e.addr ≡ b) × (is_typed e ≡ true)
  pub counted : (b : ℕ) → queued b c.queue ≡ alloc b c.events + extra b

module _ {D : Type 0} {extra : ℕ → ℕ} (c : Core D) (o : IsOwned extra c) where
  pub fresh : find c.next_addr c.events ≡ none
  fresh = elim (Option-cases (find c.next_addr c.events)) [
    | inl e ↦ e
    | inr (x, e) ↦ absurd (omega (arith, o.below _ x e))
  ]

  pub IsOwned-spawned :
      (e : Event D) (time : ℕ)
      → e.addr ≡ c.next_addr
      → is_typed e ≡ true
      → IsOwned extra (spawned c e time)
  IsOwned-spawned e time addr typed =
      let new = λ (b : ℕ). find-insert_new b c.next_addr e c.events fresh in
      record {
        sorted = From-insert c.next_addr e 0 c.events o.sorted (omega arith);
        below = λ b x h. ground (arith, new b, o.below b x);
        named = λ b x h. ground (arith, new b, o.named b x);
        counted = λ b.
            ground (arith, new b, fresh, o.counted b, queued-push_at b time c.next_addr c.queue);
      }

  pub IsOwned-bumped : IsOwned extra (record c { next_addr = suc c.next_addr })
  IsOwned-bumped = record {
    sorted = o.sorted;
    below = λ b x h. omega (arith, o.below b x h);
    named = o.named;
    counted = o.counted;
  }

  -- A write that leaves the address, and a type that the event may have.
  pub IsOwned-rewritten :
      (old e : Event D)
      → find e.addr c.events ≡ some old
      → is_typed e ≡ true
      → IsOwned extra (rewritten c e)
  IsOwned-rewritten old e found typed =
      let new = λ (b : ℕ). find-assign b e.addr e old c.events found in
      record {
        sorted = From-assign e.addr e 0 c.events o.sorted;
        below = λ b x h. ground (arith, new b, o.below b x, o.below e.addr old found);
        named = λ b x h. ground (arith, new b, o.named b x);
        counted = λ b. ground (arith, new b, found, o.counted b);
      }

-- The event that runs: where it stands, its kind and its type.
pub record Slot : Type 0 where
  pub time : ℕ
  pub this : ℕ
  pub kind : Bool
  pub type_bits : ℕ

-- The event as it may be read, and written back.
pub record IsMine {D : Type 0} (s : Slot) (e : Event D) : Type 0 where
  pub at_this : e.addr ≡ s.this
  pub of_type : e.event_type ≡ s.type_bits
  pub of_kind : is_spell e.body ≡ s.kind

abbrev pub again : Slot → ℕ → ℕ → ℕ
again s n b = if s.this == b then n else 0

-- While an event runs; `n` times it was put into the queue again.
pub record Busy {D : Type 0} (s : Slot) (n : ℕ) (c : Core D) : Type 0 where
  pub owned : IsOwned (again s n) c
  pub front : IsFront s.time s.this c.queue
  pub held : (e : Event D) × (find s.this c.events ≡ some e) × IsMine s e
  pub running : c.current ≡ some s.this

-- Between two events.
pub record Idle {D : Type 0} (c : Core D) : Type 0 where
  pub owned : IsOwned (λ b. 0) c
  pub stopped : c.current ≡ none

module _ {D : Type 0} where
  pub Idle-IsFrame : IsFrame {D = D} Idle
  Idle-IsFrame = record {
    spawns = λ c e time h addr typed. record {
      owned = IsOwned-spawned c h.owned e time addr typed;
      stopped = h.stopped;
    };
    bumps = λ c h. record { owned = IsOwned-bumped c h.owned; stopped = h.stopped };
    reads = λ c a h run. cc (h.stopped);
    rewrites = λ c a e y h run found. cc (h.stopped);
  }
