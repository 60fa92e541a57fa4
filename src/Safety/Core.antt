-- ===== src/Safety/Core.antt =====
-- What the ownership of events is about: the event objects, the queue, the next address and the pointer
-- to the current event. An invariant is a predicate on these alone.
use dpscalclua.Base.{
  ℕ, suc, sym, subst, ◌≡◌, ◌≢◌, Bool, true, false, ◌||◌, Option, none, some, List, ◌==◌,
}
use dpscalclua.Global.{event_aura_application, event_aura_removal, event_aura_periodic_event}
use dpscalclua.Map.{Map, find, insert, assign}
use dpscalclua.Event.{Event, Additionals, Body, of_spell, of_aura}
use dpscalclua.EventSystem.{push_at}
use dpscalclua.Store.{World, modify}
use dpscalclua.Safety.Meets.{Keeps, Keeps-modify, keeps_rules}

pub record Core (D : Type 0) : Type 0 where
  pub events : Map (Event D)
  pub queue : Map (List ℕ)
  pub next_addr : ℕ
  pub current : Option ℕ

abbrev pub core : {D L : Type 0} → World D L → Core D
core w = record {
  events = w.events;
  queue = w.system.event_map;
  next_addr = w.next_addr;
  current = w.current_event;
}

pub record On {D L : Type 0} (P : Core D → Type 0) (w : World D L) : Type 0 where
  pub holds : P (core w)

-- A step that leaves the core alone.
pub Keeps-modify_rest :
    {D L : Type 0} {P : Core D → Type 0} (f : World D L → World D L)
    → ((w : World D L) → core (f w) ≡ core w)
    → Keeps (On P) (modify f)
Keeps-modify_rest {P} f same =
    Keeps-modify f λ w h. record { holds = subst P (sym (same w)) h.holds }

abbrev pub is_spell : Body → Bool
is_spell (of_spell s) = true
is_spell (of_aura a) = false

-- `EVENT_SPELL_CAST | EVENT_PRE` and its like.
abbrev pub cast_pre : ℕ
cast_pre = 0x5000_0001

abbrev pub cast_post : ℕ
cast_post = 0x9000_0001

abbrev pub channel_pre : ℕ
channel_pre = 0x5000_0004

abbrev pub channel_post : ℕ
channel_post = 0x9000_0004

-- The types that the two kinds of events have.
abbrev pub has_type : Bool → ℕ → Bool
has_type true t = t == cast_pre || t == cast_post || t == channel_pre || t == channel_post
has_type false t =
    t == event_aura_application || t == event_aura_removal || t == event_aura_periodic_event

abbrev pub is_typed : {D : Type 0} → Event D → Bool
is_typed e = has_type (is_spell e.body) e.event_type

-- The object is made, and the queue has it.
abbrev pub spawned : {D : Type 0} → Core D → Event D → (time : ℕ) → Core D
spawned c e time = record c {
  events = insert c.next_addr e c.events;
  queue = push_at time c.next_addr c.queue;
  next_addr = suc c.next_addr;
}

abbrev pub rewritten : {D : Type 0} → Core D → Event D → Core D
rewritten c e = record c { events = assign e.addr e c.events }

-- What a property of the core must survive to survive any routine of the scripts: new events, other
-- new objects, and new additions of the current event, which must still be there.
pub record IsFrame {D : Type 0} (P : Core D → Type 0) : Type 0 where
  pub spawns :
      (c : Core D) (e : Event D) (time : ℕ)
      → P c
      → e.addr ≡ c.next_addr
      → is_typed e ≡ true
      → P (spawned c e time)
  pub bumps : (c : Core D) → P c → P (record c { next_addr = suc c.next_addr })
  pub reads : (c : Core D) (a : ℕ) → P c → c.current ≡ some a → find a c.events ≢ none
  pub rewrites :
      (c : Core D) (a : ℕ) (e : Event D) (y : Additionals D)
      → P c
      → c.current ≡ some a
      → find a c.events ≡ some e
      → (find e.addr c.events ≢ none) × P (rewritten c (record e { extra = y }))

pub ruleset frame_rules = (keeps_rules, Keeps-modify_rest)
