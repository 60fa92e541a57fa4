-- ===== src/Safety/Loop.antt =====
-- `ProcessEvent` and the loop of `Perform` leave every event object in the queue exactly once.
use dpscalclua.Base.{
  ℕ, zero, suc, ◌≡◌, refl, sym, subst, true, false, List, [], ◌∷◌, none, some, arith,
}
use dpscalclua.Double.{Double}
use dpscalclua.Map.{Map, find}
use dpscalclua.EventSystem.{EventSystem, pop_front, advance}
use dpscalclua.Store.{World, get, modify}
use dpscalclua.Script.{Env}
use dpscalclua.Simulation.{
  due, set_system, dispatch_first, process_entry, process_event, round, main_loop,
}
use dpscalclua.Safety.Meets.{
  Meets, Keeps, Keeps-pure, Keeps-get, Keeps-bind, Meets-bind, Meets-option, Meets-pure, Meets-if,
}
use dpscalclua.Safety.Queued.{queued-pop_empty}
use dpscalclua.Safety.Core.{core, On, frame_rules}
use dpscalclua.Safety.Owned.{Idle, Idle-IsFrame}
use dpscalclua.Safety.Routines.{Keeps-call_lua_function}
use dpscalclua.Safety.Spent.{Spent, popped}
use dpscalclua.Safety.Process.{Meets-dispatch_event}

due-find : (s : EventSystem) (x : ℕ × List ℕ) → due s ≡ some x → find x.0 s.event_map ≡ some x.1
unfolding due find
due-find s x h = by_map s.event_map h
  where
    by_map : (m : Map (List ℕ)) → due (record s { event_map = m }) ≡ some x → find x.0 m ≡ some x.1
    by_map [] g = ground arith
    by_map ((t, l) ∷ m) g = ground arith

event_map-advance : (s : EventSystem) (next : ℕ) → (advance s next).event_map ≡ s.event_map
unfolding advance
event_map-advance s next = by_map s.event_map
  where
    by_map : (m : Map (List ℕ)) → (advance (record s { event_map = m }) next).event_map ≡ m
    by_map [] = refl
    by_map ((k, l) ∷ m) = ground arith

module _ {D L : Type 0} where
  -- The entry that is due.
  record Due (t : ℕ) (l : List ℕ) (w : World D L) : Type 0 where
    idle : On Idle w
    entry : find t w.system.event_map ≡ some l

  -- The store as it was read.
  record Now (v w : World D L) : Type 0 where
    same : v ≡ w
    idle : On Idle w

  Meets-get : Meets (On Idle) (get {S = World D L}) Now
  unfolding get
  Meets-get = record { at = λ w h. record { same = refl; idle = h } }

  Meets-pop_front :
      (t a : ℕ)
      → Meets
          (On (Spent {D = D} t a none))
          (modify {S = World D L}
            (set_system λ s. record s { event_map = pop_front t s.event_map }))
          (λ _. On Idle)
  unfolding modify
  Meets-pop_front t a = record { at = λ w h. record { holds = popped t a (core w) h.holds } }

  Meets-pop_empty :
      (t : ℕ)
      → Meets
          (Due t [])
          (modify {S = World D L}
            (set_system λ s. record s { event_map = pop_front t s.event_map }))
          (λ _. On Idle)
  unfolding modify
  Meets-pop_empty t = record {
    at = λ w h.
        let c = core w in
        let o = h.idle.holds.owned in
        record {
          holds = record {
            owned = record {
              sorted = o.sorted;
              below = o.below;
              named = o.named;
              counted = λ b. omega (arith, o.counted b, queued-pop_empty b t c.queue h.entry);
            };
            stopped = h.idle.holds.stopped;
          };
        };
  }

  Meets-advance :
      (v : World D L) (next : ℕ)
      → Meets (Now v) (modify (set_system λ s. advance s next)) (λ _. On Idle)
  unfolding modify
  Meets-advance v next = record {
    at = λ w h.
        let o = h.idle.holds.owned in
        let same = event_map-advance w.system next in
        record {
          holds = subst (λ q. Idle (record (core w) { queue = q })) (sym same) h.idle.holds;
        };
  }

module _ {D V L : Type 0} ⦃d : Double D⦄ (env : Env D V L) where
  Meets-process_entry :
      (t : ℕ) (l : List ℕ) → Meets (Due t l) (process_entry {L = L} env t l) (λ _. On Idle)
  unfolding process_entry dispatch_first
  Meets-process_entry t [] =
      Meets-bind (λ _. Due t []) _ _ (Meets-pure _ tt λ w h. h) λ u. Meets-pop_empty t
  Meets-process_entry t (a ∷ rest) =
      Meets-bind (λ _. On (Spent t a none)) _ _
        (record {
          at = λ w h.
              (Meets-dispatch_event env t a).at w
                (record { idle = h.idle; front = (rest, h.entry) });
        })
        λ u. Meets-pop_front t a

  Meets-process_due :
      (v : World D L) (x : ℕ × List ℕ)
      → due v.system ≡ some x
      → Meets (Now v) (process_entry {L = L} env x.0 x.1) (λ _. On Idle)
  Meets-process_due v x h = record {
    at = λ w n.
        let here : due w.system ≡ some x =
          subst (λ (u : World D L). due u.system ≡ some x) n.same h in
        (Meets-process_entry x.0 x.1).at w
          (record { idle = n.idle; entry = due-find w.system x here });
  }

  -- Between two events every event object stands in the queue exactly once and the queue names no other.
  -- `ProcessEvent` keeps this, and no fault of it is the use of an event object that is not there.
  pub Keeps-process_event : (fuel next : ℕ) → Keeps (On Idle) (process_event {L = L} env fuel next)
  unfolding process_event
  Keeps-process_event zero next = Keeps-pure none
  Keeps-process_event (suc fuel) next = Meets-bind Now _ _ Meets-get λ v.
      Meets-option (due v.system) _ _
        (Meets-bind (λ _. On Idle) _ _ (Meets-advance v next) λ u. Keeps-pure _)
        λ x h.
          Meets-bind (λ _. On Idle) _ _ (Meets-process_due v x h)
            λ u. Keeps-bind _ _ Keeps-get λ z.
              Meets-option (due z.system) _ _ (Keeps-pure _) λ y g. Keeps-process_event fuel next

  Keeps-round : (fuel : ℕ) → Keeps (On Idle) (round {L = L} env fuel)
  unfolding round
  Keeps-round fuel =
      search (frame_rules, Keeps-process_event, Keeps-call_lua_function env Idle-IsFrame) depth 12

  -- The loop of `Perform`: likewise.
  pub Keeps-main_loop : (rounds fuel : ℕ) → Keeps (On Idle) (main_loop {L = L} env rounds fuel)
  unfolding main_loop
  Keeps-main_loop zero fuel = Keeps-pure false
  Keeps-main_loop (suc rounds) fuel = Keeps-bind _ _ Keeps-get λ w.
      Meets-if _ _ _ (λ e. Keeps-pure true)
        λ e.
          Keeps-bind _ _ (Keeps-round fuel)
            λ r. Meets-option r _ _ (Keeps-pure false) λ b h. Keeps-main_loop rounds fuel
