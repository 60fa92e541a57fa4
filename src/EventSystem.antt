-- ===== src/EventSystem.antt =====
-- The queue of `CEventSystem` (`DPSCalc/EventSystem.h`, `EventSystem.cpp`): event addresses by due time,
-- and within one time in the order of their arrival.
use dpscalclua.Base.{
  ℕ, Bool, true, false, List, [], ◌∷◌, ◌++◌, none, some, add32, ltb, ◌==◌, if◌then◌else◌,
}
use dpscalclua.Map.{Map, find, insert, assign, erase}

pub record EventSystem : Type 0 where
  pub game_time : ℕ
  pub event_map : Map (List ℕ)
  pub exitable : Bool

unfoldable pub new_event_system : EventSystem
new_event_system = record { game_time = 0; event_map = []; exitable = false }

-- `AddEvent`, from the lookup on.
unfoldable pub push_at : ℕ → ℕ → Map (List ℕ) → Map (List ℕ)
push_at time e m = elim (find time m) [
  | some li ↦ assign time (li ++ (e ∷ [])) m
  | none ↦ insert time (e ∷ []) m
]

unfoldable pub add_event : EventSystem → (e delay : ℕ) → EventSystem
unfolding push_at
add_event s e delay = record s { event_map = push_at (add32 s.game_time delay) e s.event_map }

unfoldable pub is_exitable : EventSystem → Bool
is_exitable s = s.exitable

unfoldable pub ready_exit : EventSystem → EventSystem
ready_exit s = record s { exitable = true }

-- `l.pop_front(); if (l.empty()) m_eventMap.erase(it);` for the entry of `time`.
unfoldable pub pop_front : ℕ → Map (List ℕ) → Map (List ℕ)
pop_front time m = elim (find time m) [
  | none ↦ m
  | some [] ↦ erase time m
  | some (e ∷ []) ↦ erase time m
  | some (e ∷ f ∷ rest) ↦ assign time (f ∷ rest) m
]

-- What `ProcessEvent` does with the clock when nothing is due.
unfoldable pub advance : EventSystem → (next : ℕ) → EventSystem
advance s next = elim s.event_map [
  | [] ↦ record s { game_time = add32 s.game_time next }
  | (k, l) ∷ m ↦
      if next == 0
      then record s { game_time = k }
      else (let limit = add32 s.game_time next in
          record s { game_time = if ltb limit k then limit else k })
]
