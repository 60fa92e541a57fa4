-- ===== src/Queue/Order.antt =====
-- The order of the events in the queue of `CEventSystem`: by time, and in one time by arrival.
use dpscalclua.Base.{
  ℕ, suc, ◌≤◌, ◌≡◌, List, [], ◌∷◌, ◌++◌, none, some, inl, inr, arith, add32, ◌==◌, if◌then◌else◌,
  Option-cases,
}
use dpscalclua.Map.{Map, find, insert, erase, From, IsSorted}
use dpscalclua.Map.Laws.{
  From-insert, From-assign, From-erase, find-insert_new, find-assign, find-erase,
}
use dpscalclua.EventSystem.{EventSystem, push_at, add_event, pop_front}

-- The events of one time.
abbrev pub entry : ℕ → Map (List ℕ) → List ℕ
entry t m = elim (find t m) [ none ↦ [] | some l ↦ l ]

abbrev rest_of : List ℕ → List ℕ
rest_of [] = []
rest_of (a ∷ l) = l

entry-push_at :
    (t u e : ℕ) (m : Map (List ℕ))
    → entry u (push_at t e m) ≡ (if t == u then entry u m ++ (e ∷ []) else entry u m)
unfolding push_at
entry-push_at t u e m = elim (Option-cases (find t m)) [
  | inl h ↦ rw (h, push_at) (ground (arith, find-insert_new u t (e ∷ []) m h))
  | inr (l, h) ↦ rw (h, push_at) (ground (arith, find-assign u t (l ++ (e ∷ [])) l m h))
]

-- `AddEvent` puts an event behind those of its time, and leaves every other time as it was.
pub entry-add_event :
    (s : EventSystem) (e delay u : ℕ)
    → entry u (add_event s e delay).event_map ≡ (
        if add32 s.game_time delay == u
        then entry u s.event_map ++ (e ∷ [])
        else entry u s.event_map)
unfolding add_event
entry-add_event s e delay u = entry-push_at (add32 s.game_time delay) u e s.event_map

-- In a queue with ascending times, the pop of a time takes its oldest event and leaves every other time
-- as it was.
pub entry-pop_front :
    (t u : ℕ) (m : Map (List ℕ))
    → IsSorted m
    → entry u (pop_front t m) ≡ (if t == u then rest_of (entry u m) else entry u m)
unfolding pop_front
entry-pop_front t u m s = elim (Option-cases (find t m)) [
  | inl h ↦ rw (h, pop_front) (ground (arith, h))
  | inr ([], h) ↦ rw (h, pop_front) (ground (arith, h, find-erase u t 0 m s))
  | inr (a ∷ [], h) ↦ rw (h, pop_front) (ground (arith, h, find-erase u t 0 m s))
  | inr (a ∷ b ∷ l, h) ↦
      rw (h, pop_front) (ground (arith, h, find-assign u t (b ∷ l) (a ∷ b ∷ l) m h))
]

pub push_at-IsSorted :
    (lo t e : ℕ) (m : Map (List ℕ)) → From lo m → lo ≤ t → From lo (push_at t e m)
unfolding push_at
push_at-IsSorted lo t e m s le = elim (Option-cases (find t m)) [
  | inl h ↦ rw (h, push_at) (From-insert t (e ∷ []) lo m s le)
  | inr (l, h) ↦ rw (h, push_at) (From-assign t (l ++ (e ∷ [])) lo m s)
]

pub pop_front-IsSorted : (lo t : ℕ) (m : Map (List ℕ)) → From lo m → From lo (pop_front t m)
unfolding pop_front
pop_front-IsSorted lo t m s = elim (Option-cases (find t m)) [
  | inl h ↦ rw (h, pop_front) s
  | inr ([], h) ↦ rw (h, pop_front) (From-erase t lo m s)
  | inr (a ∷ [], h) ↦ rw (h, pop_front) (From-erase t lo m s)
  | inr (a ∷ b ∷ l, h) ↦ rw (h, pop_front) (From-assign t (b ∷ l) lo m s)
]

erase-insert :
    (t e lo : ℕ) (m : Map (List ℕ))
    → From lo m
    → find t m ≡ none
    → erase t (insert t (e ∷ []) m) ≡ m
unfolding erase insert find
erase-insert t e lo [] s h = ground arith
erase-insert t e lo ((u, l) ∷ m) s h = ground (arith, erase-insert t e (suc u) m s.1)

-- In a queue with ascending times, an event that is added at a time with no other event leaves the
-- queue as it was when it is popped.
pub pop_front-push_at :
    (t e : ℕ) (m : Map (List ℕ)) → IsSorted m → find t m ≡ none → pop_front t (push_at t e m) ≡ m
unfolding push_at pop_front
pop_front-push_at t e m s h =
    rw (h, push_at) (ground (arith, find-insert_new t t (e ∷ []) m h, erase-insert t e 0 m s h))
