-- ===== src/Queue/Clock.antt =====
-- The clock of `CEventSystem`: no event is late, and the clock moves on whenever nothing is due.
use dpscalclua.Base.{ℕ, ◌+◌, ◌≤◌, ◌<◌, ◌≡◌, List, [], ◌∷◌, none, some, arith, add32, word_mod}
use dpscalclua.Map.{Map, From}
use dpscalclua.EventSystem.{EventSystem, add_event, advance}
use dpscalclua.Simulation.{due}
use dpscalclua.Queue.Order.{push_at-IsSorted}

-- The times ascend, from the clock on.
abbrev pub IsOnTime : EventSystem → Type 0
IsOnTime s = From s.game_time s.event_map

-- An event that is added comes at the clock or later, when the time of it is below 2 ^ 32.
pub add_event-IsOnTime :
    (s : EventSystem) (e delay : ℕ)
    → IsOnTime s
    → s.game_time + delay < word_mod
    → IsOnTime (add_event s e delay)
unfolding add_event
add_event-IsOnTime s e delay h small =
    push_at-IsSorted s.game_time (add32 s.game_time delay) e s.event_map h (omega arith)

-- When no event is late, the entry that is due is the one of this very moment.
pub due-now : (s : EventSystem) (x : ℕ × List ℕ) → IsOnTime s → due s ≡ some x → x.0 ≡ s.game_time
unfolding due
due-now s x h e = by_map s.event_map h e
  where
    by_map :
        (m : Map (List ℕ))
        → From s.game_time m
        → due (record s { event_map = m }) ≡ some x
        → x.0 ≡ s.game_time
    by_map [] h e = ground arith
    by_map ((t, l) ∷ m) h e = ground arith

-- When no event is late and nothing is due, an advance by a positive time that does not take the
-- clock to 2 ^ 32 moves the clock on by at least one and by at most that time, and makes no event
-- late.
pub advance_lem :
    (s : EventSystem) (next : ℕ)
    → IsOnTime s
    → due s ≡ none
    → 0 < next
    → s.game_time + next < word_mod
    → IsOnTime (advance s next)
      × (s.game_time < (advance s next).game_time)
      × ((advance s next).game_time ≤ s.game_time + next)
unfolding advance due
advance_lem s next h e pos small = by_map s.event_map h e
  where
    by_map :
        (m : Map (List ℕ))
        → From s.game_time m
        → due (record s { event_map = m }) ≡ none
        → IsOnTime (advance (record s { event_map = m }) next)
          × (s.game_time < (advance (record s { event_map = m }) next).game_time)
          × ((advance (record s { event_map = m }) next).game_time ≤ s.game_time + next)
    by_map [] h e = (tt, omega arith, omega arith)
    by_map ((t, l) ∷ m) h e = ground arith
