-- ===== src/Safety/Queued.antt =====
-- How often an event stands in the queue, and what `AddEvent` and `pop_front` change about it.
use dpscalclua.Base.{
  ℕ, ◌+◌, ◌≡◌, refl, List, [], ◌∷◌, ◌++◌, none, some, arith, ◌==◌, if◌then◌else◌, Option-cases, inl,
  inr,
}
use dpscalclua.Map.{Map, find, insert, assign, erase}
use dpscalclua.Map.Laws.{find-insert_new, find-assign}
use dpscalclua.EventSystem.{push_at, pop_front}

abbrev pub one_if : ℕ → ℕ → ℕ
one_if a b = if a == b then 1 else 0

abbrev pub count : ℕ → List ℕ → ℕ
count b [] = 0
count b (a ∷ l) = one_if a b + count b l

abbrev pub queued : ℕ → Map (List ℕ) → ℕ
queued b [] = 0
queued b ((t, l) ∷ m) = count b l + queued b m

pub count-append : (b : ℕ) (l k : List ℕ) → count b (l ++ k) ≡ count b l + count b k
count-append b [] k = omega arith
count-append b (a ∷ l) k = omega (arith, count-append b l k)

queued-insert :
    (b t : ℕ) (l : List ℕ) (m : Map (List ℕ))
    → find t m ≡ none
    → queued b (insert t l m) ≡ count b l + queued b m
unfolding find insert
queued-insert b t l [] e = refl
queued-insert b t l ((s, k) ∷ m) e = ground (arith, queued-insert b t l m)

queued-assign :
    (b t : ℕ) (l k : List ℕ) (m : Map (List ℕ))
    → find t m ≡ some k
    → queued b (assign t l m) + count b k ≡ queued b m + count b l
unfolding find assign
queued-assign b t l k [] e = ground arith
queued-assign b t l k ((s, j) ∷ m) e = ground (arith, queued-assign b t l k m)

queued-erase :
    (b t : ℕ) (k : List ℕ) (m : Map (List ℕ))
    → find t m ≡ some k
    → queued b (erase t m) + count b k ≡ queued b m
unfolding find erase
queued-erase b t k [] e = ground arith
queued-erase b t k ((s, j) ∷ m) e = ground (arith, queued-erase b t k m)

pub queued-push_at :
    (b t e : ℕ) (m : Map (List ℕ)) → queued b (push_at t e m) ≡ queued b m + one_if e b
unfolding push_at
queued-push_at b t e m = elim (Option-cases (find t m)) [
  | inl h ↦ rw (h, push_at) (omega (arith, queued-insert b t (e ∷ []) m h))
  | inr (l, h) ↦
      rw (h, push_at)
        (omega (arith, queued-assign b t (l ++ (e ∷ [])) l m h, count-append b l (e ∷ [])))
]

-- The entry of `t` begins with `a`.
abbrev pub IsFront : ℕ → ℕ → Map (List ℕ) → Type 0
IsFront t a m = (rest : List ℕ) × (find t m ≡ some (a ∷ rest))

pub push_at-IsFront : (t a s e : ℕ) (m : Map (List ℕ)) → IsFront t a m → IsFront t a (push_at s e m)
unfolding push_at
push_at-IsFront t a s e m (rest, f) = elim (Option-cases (find s m)) [
  | inl h ↦ (rest, rw (h, push_at) (ground (arith, find-insert_new t s (e ∷ []) m h)))
  | inr (l, h) ↦ (
    if s == t then rest ++ (e ∷ []) else rest,
    rw (h, push_at) (ground (arith, find-assign t s (l ++ (e ∷ [])) l m h)),
  )
]

pub queued-pop_front :
    (b t a : ℕ) (rest : List ℕ) (m : Map (List ℕ))
    → find t m ≡ some (a ∷ rest)
    → queued b (pop_front t m) + one_if a b ≡ queued b m
unfolding pop_front
queued-pop_front b t a [] m h = rw (h, pop_front) (omega (arith, queued-erase b t (a ∷ []) m h))
queued-pop_front b t a (f ∷ rest) m h =
    rw (h, pop_front) (omega (arith, queued-assign b t (f ∷ rest) (a ∷ f ∷ rest) m h))

pub queued-pop_empty :
    (b t : ℕ) (m : Map (List ℕ)) → find t m ≡ some [] → queued b (pop_front t m) ≡ queued b m
unfolding pop_front
queued-pop_empty b t m h = rw (h, pop_front) (omega (arith, queued-erase b t [] m h))
