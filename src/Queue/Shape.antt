-- ===== src/Queue/Shape.antt =====
-- The queue of `CEventSystem` as a whole: times that ascend and fit into 32 bits, and no time without an
-- event.
use dpscalclua.Base.{
  All, ℕ, ◌<◌, ◌≡◌, ◌≢◌, refl, List, [], ◌∷◌, ◌++◌, inl, inr, arith, word_mod, Option-cases,
}
use dpscalclua.Map.{Map, find, insert, assign, erase, IsSorted}
use dpscalclua.EventSystem.{EventSystem, advance, push_at, pop_front}
use dpscalclua.Queue.Order.{push_at-IsSorted, pop_front-IsSorted}

abbrev pub IsEntry : ℕ × List ℕ → Type 0
IsEntry x = (x.0 < word_mod) × (x.1 ≢ [])

pub record IsOrdered (m : Map (List ℕ)) : Type 0 where
  pub sorted : IsSorted m
  pub filled : All IsEntry m

module _ {V : Type 0} (P : ℕ × V → Type 0) where
  All-insert : (k : ℕ) (v : V) (m : Map V) → P (k, v) → All P m → All P (insert k v m)
  unfolding insert
  All-insert k v [] p h = (p, tt)
  All-insert k v ((j, w) ∷ m) p h = let rest = All-insert k v m p h.1 in ground arith

  All-erase : (k : ℕ) (m : Map V) → All P m → All P (erase k m)
  unfolding erase
  All-erase k [] h = tt
  All-erase k ((j, w) ∷ m) h = let rest = All-erase k m h.1 in ground arith

All-assign :
    (k : ℕ) (l : List ℕ) (m : Map (List ℕ)) → l ≢ [] → All IsEntry m → All IsEntry (assign k l m)
unfolding assign
All-assign k l [] p h = tt
All-assign k l ((j, w) ∷ m) p h = let rest = All-assign k l m p h.1 in ground arith

append-ne-nil : (l : List ℕ) (e : ℕ) → l ++ (e ∷ []) ≢ []
append-ne-nil [] e h = cc h
append-ne-nil (x ∷ l) e h = cc h

push_at-filled :
    (t e : ℕ) (m : Map (List ℕ)) → t < word_mod → All IsEntry m → All IsEntry (push_at t e m)
unfolding push_at
push_at-filled t e m lt h = elim (Option-cases (find t m)) [
  | inl g ↦ rw (g, push_at) (All-insert IsEntry t (e ∷ []) m (lt, λ p. cc p) h)
  | inr (l, g) ↦ rw (g, push_at) (All-assign t (l ++ (e ∷ [])) m (append-ne-nil l e) h)
]

pop_front-filled : (t : ℕ) (m : Map (List ℕ)) → All IsEntry m → All IsEntry (pop_front t m)
unfolding pop_front
pop_front-filled t m h = elim (Option-cases (find t m)) [
  | inl g ↦ rw (g, pop_front) h
  | inr ([], g) ↦ rw (g, pop_front) (All-erase IsEntry t m h)
  | inr (a ∷ [], g) ↦ rw (g, pop_front) (All-erase IsEntry t m h)
  | inr (a ∷ b ∷ l, g) ↦ rw (g, pop_front) (All-assign t (b ∷ l) m (λ p. cc p) h)
]

pub push_at-IsOrdered :
    (t e : ℕ) (m : Map (List ℕ)) → t < word_mod → IsOrdered m → IsOrdered (push_at t e m)
push_at-IsOrdered t e m lt h = record {
  sorted = push_at-IsSorted 0 t e m h.sorted (omega arith);
  filled = push_at-filled t e m lt h.filled;
}

pub pop_front-IsOrdered : (t : ℕ) (m : Map (List ℕ)) → IsOrdered m → IsOrdered (pop_front t m)
pop_front-IsOrdered t m h = record {
  sorted = pop_front-IsSorted 0 t m h.sorted;
  filled = pop_front-filled t m h.filled;
}

pub event_map-advance : (s : EventSystem) (next : ℕ) → (advance s next).event_map ≡ s.event_map
unfolding advance
event_map-advance s next = by_map s.event_map
  where
    by_map : (m : Map (List ℕ)) → (advance (record s { event_map = m }) next).event_map ≡ m
    by_map [] = refl
    by_map ((t, l) ∷ m) = ground arith
