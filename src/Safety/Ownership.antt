-- ===== src/Safety/Ownership.antt =====
-- What the ownership of the event objects means for the runs of the program.
use dpscalclua.Base.{ℕ, List, ◌∷◌, ◌≡◌, none, some}
use dpscalclua.Double.{Double}
use dpscalclua.Map.{find}
use dpscalclua.Store.{World}
use dpscalclua.Script.{Env, Hook}
use dpscalclua.Lua.Dispatch.{call_lua_function}
use dpscalclua.Simulation.{dispatch_event, process_event, main_loop}
use dpscalclua.Safety.Meets.{Holds}
use dpscalclua.Safety.Core.{core}
use dpscalclua.Safety.Owned.{Idle, Idle-IsFrame}
use dpscalclua.Safety.Spent.{Spent}
use dpscalclua.Safety.Process.{Meets-dispatch_event}
use dpscalclua.Safety.Loop.{Keeps-process_event, Keeps-main_loop}
use dpscalclua.Safety.Routines.{Keeps-call_lua_function}
use dpscalclua.Safety.Core.{On}

module _ {D V L : Type 0} ⦃d : Double D⦄ (env : Env D V L) where
  -- Between two events every event object stands in the queue exactly once, the queue names no other
  -- address, and each object has a type of its class. From such a store, and whatever the scripts do, the
  -- loop of `Perform` in any number of rounds leads to such a store or to a fault that is not the use of
  -- an event object that is not there: none is used after its deletion, deleted twice, or lost.
  pub main_loop-Idle :
      (rounds fuel : ℕ) (w : World D L)
      → Idle (core w)
      → Holds (λ b v. On Idle v) (main_loop env rounds fuel w)
  main_loop-Idle rounds fuel w h = (Keeps-main_loop env rounds fuel).at w (record { holds = h })

  -- A call of `ProcessEvent` likewise leads from a store in which every event object stands in the queue
  -- exactly once to such a store, or to a fault that is not the use of a missing event object.
  pub process_event-Idle :
      (fuel next : ℕ) (w : World D L)
      → Idle (core w)
      → Holds (λ r v. On Idle v) (process_event env fuel next w)
  process_event-Idle fuel next w h = (Keeps-process_event env fuel next).at w (record { holds = h })

  -- From a store in which every event object stands in the queue exactly once, the dispatch of the event
  -- at the front of a time runs it and leaves it at the front; after this it is either deleted or stands in
  -- the queue once more, and never both or neither. A fault is not the use of a missing event object.
  pub dispatch_event-Spent :
      (t a : ℕ) (rest : List ℕ) (w : World D L)
      → Idle (core w)
      → find t w.system.event_map ≡ some (a ∷ rest)
      → Holds (λ u v. On (Spent t a none) v) (dispatch_event env a w)
  dispatch_event-Spent t a rest w h f =
      (Meets-dispatch_event env t a).at w
        (record { idle = record { holds = h }; front = (rest, f) })

  -- Any routine of the scripts, called between two events, leaves every event object in the queue exactly
  -- once, or stops at a fault that is not the use of a missing event object.
  pub call_lua_function-Idle :
      (hook : Hook) (n : ℕ) (w : World D L)
      → Idle (core w)
      → Holds (λ u v. On Idle v) (call_lua_function env hook n w)
  call_lua_function-Idle hook n w h =
      (Keeps-call_lua_function env Idle-IsFrame hook n).at w (record { holds = h })
