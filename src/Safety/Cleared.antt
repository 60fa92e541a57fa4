-- ===== src/Safety/Cleared.antt =====
-- A whole calculation: no event object is left at its end.
use dpscalclua.Base.{
  zero, suc, Bool-cases, inl, inr, if◌then◌else◌, true, true, false, ℕ, ◌+◌, ◌≡◌, refl, sym, ◌∙◌,
  subst, Bool, not, List, [], ◌∷◌, none, some, inl, inr, arith, Option-cases,
}
use dpscalclua.Double.{Double}
use dpscalclua.Map.{Map, find, From, IsSorted}
use dpscalclua.Map.Laws.{From-erase, find-erase}
use dpscalclua.Event.{Event}
use dpscalclua.EventSystem.{EventSystem, new_event_system}
use dpscalclua.Player.{Player, new_player}
use dpscalclua.Store.{World, pure, get, modify, ◌>>=◌, ◌>>◌}
use dpscalclua.Script.{Env, on_test_start, on_test_finish}
use dpscalclua.Heap.{read_event, delete_event}
use dpscalclua.Heap.Laws.{bind-done, read_event-done}
use dpscalclua.Lua.Dispatch.{call_lua_function}
use dpscalclua.Simulation.{set_system}
use dpscalclua.Reporter.Object.{new_reporter, write_logs, delete_reporter}
use dpscalclua.Loading.{Code, run_lua_code}
use dpscalclua.Calculation.{
  beyond, spare_loop, calculate_left, calculate, Verdict, not_loaded, out_of_fuel, result,
  delete_all, delete_entries, delete_event_system, set_up, lua_initialize, lua_clean_up,
  damage_per_second, tear_down, perform,
}
use dpscalclua.Safety.Meets.{
  Holds, Meets, Keeps, Keeps-bind, Meets-bind, Meets-if, Meets-option, Meets-pure, Keeps-get,
  keeps_rules,
}
use dpscalclua.Safety.Queued.{count, queued}
use dpscalclua.Safety.Core.{On, frame_rules}
use dpscalclua.Safety.Owned.{alloc, Idle, Idle-IsFrame}
use dpscalclua.Safety.Routines.{Keeps-call_lua_function}
use dpscalclua.Safety.Loading.{Keeps-run_lua_code, Keeps-load_toc}
use dpscalclua.Safety.Loop.{Keeps-main_loop}

-- The events that are left are those that are still to be deleted.
pub record IsLeft {D L : Type 0} (l : List ℕ) (m : Map (List ℕ)) (w : World D L) : Type 0 where
  pub sorted : IsSorted w.events
  pub counted : (b : ℕ) → count b l + queued b m ≡ alloc b w.events

nothing_left : {D : Type 0} (m : Map (Event D)) → ((b : ℕ) → 0 ≡ alloc b m) → m ≡ []
unfolding find
nothing_left [] h = refl
nothing_left ((k, v) ∷ m) h = absurd (ground (arith, h k))

module _ {D L : Type 0} where
  Meets-delete :
      (a : ℕ) (l : List ℕ) (m : Map (List ℕ))
      → Meets (IsLeft {D = D} {L = L} (a ∷ l) m) (delete_event a) (λ _. IsLeft l m)
  unfolding delete_event ◌>>=◌
  Meets-delete a l m = record {
    at = λ w h. elim (Option-cases (find a w.events)) [
      | inl e ↦ absurd (ground (arith, e, h.counted a))
      | inr (x, e) ↦
          let gone = λ (b : ℕ). find-erase b a 0 w.events h.sorted in
          subst (Holds _) (sym (bind-done (read_event a) _ w (read_event-done a w x e))) (record {
            sorted = From-erase a 0 w.events h.sorted;
            counted = λ b. ground (arith, gone b, h.counted b);
          })
    ];
  }

  Meets-delete_all :
      (l : List ℕ) (m : Map (List ℕ))
      → Meets (IsLeft {D = D} {L = L} l m) (delete_all l) (λ _. IsLeft [] m)
  unfolding delete_all
  Meets-delete_all [] m = Meets-pure _ tt λ w h. h
  Meets-delete_all (a ∷ l) m =
      Meets-bind (λ _. IsLeft l m) _ _ (Meets-delete a l m) λ u. Meets-delete_all l m

  Meets-delete_entries :
      (m : Map (List ℕ))
      → Meets (IsLeft {D = D} {L = L} [] m) (delete_entries m) (λ _. IsLeft [] [])
  unfolding delete_entries
  Meets-delete_entries [] = Meets-pure _ tt λ w h. h
  Meets-delete_entries ((t, l) ∷ m) =
      Meets-bind (λ _. IsLeft [] m) _ _
        (record {
          at = λ w h.
              (Meets-delete_all l m).at w
                (record { sorted = h.sorted; counted = λ b. omega (arith, h.counted b) });
        })
        λ u. Meets-delete_entries m

  Meets-read_queue : Meets (On Idle) (get {S = World D L}) (λ w. IsLeft [] w.system.event_map)
  unfolding get
  Meets-read_queue = record {
    at = λ w h. record {
      sorted = h.holds.owned.sorted;
      counted = λ b. omega (arith, h.holds.owned.counted b);
    };
  }

  Meets-drop_queue :
      Meets
        (IsLeft [] [])
        (modify {S = World D L} (set_system λ s. record s { event_map = [] }))
        (λ u w. w.events ≡ [])
  unfolding modify
  Meets-drop_queue = record { at = λ w h. nothing_left w.events h.counted }

  Meets-delete_event_system :
      Meets (On {D = D} {L = L} Idle) delete_event_system (λ u w. w.events ≡ [])
  unfolding delete_event_system
  Meets-delete_event_system =
      Meets-bind (λ w. IsLeft [] w.system.event_map) _ _ Meets-read_queue
        λ w.
          Meets-bind (λ u. IsLeft [] []) _ _ (Meets-delete_entries w.system.event_map)
            λ u. Meets-drop_queue

  Keeps-no_events :
      (f : World D L → World D L)
      → ((w : World D L) → (f w).events ≡ w.events)
      → Keeps (λ w. w.events ≡ []) (modify f)
  unfolding modify
  Keeps-no_events f same = record { at = λ w h. same w ∙ h }

-- What a finished calculation leaves.
abbrev pub IsCleared : {D L : Type 0} → Verdict D → World D L → Type 0
IsCleared (result x) w = w.events ≡ []
IsCleared not_loaded w = Unit {0}
IsCleared out_of_fuel w = Unit {0}
IsCleared beyond w = Unit {0}

module _ {D V L : Type 0} ⦃d : Double D⦄ (env : Env D V L) (code : Code V D L) where
  Keeps-delete_reporter :
      Keeps (λ (w : World D L). w.events ≡ []) (delete_reporter code.print_float code.less)
  unfolding delete_reporter write_logs
  Keeps-delete_reporter = search (keeps_rules, Keeps-no_events) depth 20

  Meets-tear_down : Meets (On {D = D} {L = L} Idle) (tear_down env code) (λ u w. w.events ≡ [])
  unfolding tear_down lua_clean_up
  Meets-tear_down = Keeps-bind _ _ (search frame_rules) λ u.
      Meets-bind (λ v w. w.events ≡ []) _ _ Meets-delete_event_system
        λ v.
          Keeps-bind _ _ Keeps-delete_reporter
            λ x. Keeps-bind _ _ (Keeps-no_events _ λ w. refl) λ y. Keeps-no_events _ λ w. refl

  Keeps-lua_initialize : (fuel : ℕ) → Keeps (On Idle) (lua_initialize {L = L} env code fuel)
  unfolding lua_initialize
  Keeps-lua_initialize fuel =
      search
        (
          frame_rules,
          Keeps-run_lua_code env code Idle-IsFrame,
          Keeps-load_toc env code Idle-IsFrame,
        )
        depth 20

  no_object : (b : ℕ) (w : World D L) (e : Event D) → w.events ≡ [] → find b w.events ≡ some e → ⊥
  unfolding find
  no_object b w e h g =
      let none_there : none ≡ some e = subst (λ m. find b m ≡ some e) h g in cc none_there

  -- A store with no events, an empty queue and no current event.
  fresh-Idle :
      (w : World D L) → w.events ≡ [] → w.system.event_map ≡ [] → w.current_event ≡ none → On Idle w
  unfolding find
  fresh-Idle w h q c = record {
    holds = record {
      owned = record {
        sorted = subst (From 0) (sym h) tt;
        below = λ b e g. absurd (no_object b w e h g);
        named = λ b e g. absurd (no_object b w e h g);
        counted = λ b.
            subst (λ m. queued b w.system.event_map ≡ alloc b m + 0) (sym h)
              (subst (λ m. queued b m ≡ 0) (sym q) refl);
      };
      stopped = c;
    };
  }

  -- No event object, no current event, and an empty queue if one is left over.
  abbrev IsReady : World D L → Type 0
  IsReady w =
      (w.events ≡ []) × (w.current_event ≡ none) × (w.has_player ≡ true → w.system.event_map ≡ [])

  no_queue :
      (w : World D L)
      → (w.has_player ≡ true → w.system.event_map ≡ [])
      → (if w.has_player then w.system else new_event_system).event_map ≡ []
  unfolding new_event_system
  no_queue w h = elim (Bool-cases w.has_player) [ inl e ↦ rw e (h e) | inr e ↦ rw e refl ]

  Meets-set_up :
      (is_save is_detail : Bool)
      → Meets IsReady (modify (set_up env code is_save is_detail)) (λ u. On Idle)
  unfolding modify set_up new_reporter
  Meets-set_up is_save true = record { at = λ w h. fresh-Idle _ h.0 (no_queue w h.2) h.1 }
  Meets-set_up is_save false = record { at = λ w h. fresh-Idle _ h.0 (no_queue w h.2) h.1 }

  Meets-finish :
      (n : ℕ)
      → Meets
          (On Idle)
          (do
            set ← run_lua_code env code (some (code.dps n))
            call_lua_function env on_test_finish 0
            v ← get
            tear_down env code
            pure (result (damage_per_second env code v)))
          IsCleared
  Meets-finish n = Keeps-bind _ _ (Keeps-run_lua_code env code Idle-IsFrame _) λ u.
      Keeps-bind _ _ (Keeps-call_lua_function env Idle-IsFrame on_test_finish 0) λ x.
        Keeps-bind _ _ Keeps-get
          λ v. Meets-bind (λ y w. w.events ≡ []) _ _ Meets-tear_down λ y. Meets-pure _ _ λ w h. h

  Meets-calculate : (rounds fuel : ℕ) → Meets (On Idle) (calculate env code rounds fuel) IsCleared
  unfolding calculate
  Meets-calculate rounds fuel =
      Keeps-bind _ _ (Keeps-run_lua_code env code Idle-IsFrame code.additional) λ x.
        Keeps-bind _ _ (Keeps-call_lua_function env Idle-IsFrame on_test_start 0) λ y.
          Keeps-bind _ _ (Keeps-main_loop env rounds fuel) λ ended.
            Meets-if (not ended) _ _ (λ f. Meets-pure _ _ λ w h. tt)
              λ f. Keeps-bind _ _ Keeps-get λ w. Meets-finish w.damage_counter

  Keeps-spare_loop :
      (rounds : ℕ) (s : EventSystem) (p : Player D)
      → Keeps (On Idle) (spare_loop env code rounds s p)
  unfolding spare_loop
  Keeps-spare_loop zero s p = search frame_rules
  Keeps-spare_loop (suc rounds) s p =
      search (frame_rules, Keeps-call_lua_function env Idle-IsFrame, Keeps-spare_loop rounds) depth
        20

  Meets-calculate_left : (rounds : ℕ) → Meets (On Idle) (calculate_left env code rounds) IsCleared
  unfolding calculate_left
  Meets-calculate_left rounds =
      Keeps-bind _ _ (Keeps-run_lua_code env code Idle-IsFrame code.additional) λ x.
        Keeps-bind _ _ (Keeps-call_lua_function env Idle-IsFrame on_test_start 0) λ y.
          Keeps-bind _ _ (Keeps-spare_loop rounds new_event_system new_player) λ ended.
            Meets-if ended _ _ (λ f. Meets-pure _ _ λ w h. tt) λ f. Meets-pure _ _ λ w h. tt

  Meets-perform :
      (is_save is_detail : Bool) (rounds fuel : ℕ)
      → Meets IsReady (perform env code is_save is_detail rounds fuel) IsCleared
  unfolding perform
  Meets-perform is_save is_detail rounds fuel = Keeps-bind _ _ Keeps-get λ v.
      Meets-bind (λ u. On Idle) _ _ (Meets-set_up is_save is_detail)
        λ u. Keeps-bind _ _ (Keeps-lua_initialize fuel) λ loaded.
          Meets-option loaded _ _ (Meets-pure _ _ λ w h. tt) λ ok e.
            Meets-if ok _ _
              (λ f.
                Meets-if v.has_player _ _ (λ g. Meets-calculate_left rounds)
                  λ g. Meets-calculate rounds fuel)
              λ f. Meets-pure _ _ λ w h. tt

  -- A calculation that starts with no event object and no current event, and with an empty queue if the
  -- global pointers are left over, stops, with any scripts, at a fault that is not the use of a missing
  -- event object, or ends; and if it ends with a result, no event object is left.
  pub perform-IsCleared :
      (is_save is_detail : Bool) (rounds fuel : ℕ) (w : World D L)
      → w.events ≡ []
      → w.current_event ≡ none
      → (w.has_player ≡ true → w.system.event_map ≡ [])
      → Holds IsCleared (perform env code is_save is_detail rounds fuel w)
  perform-IsCleared is_save is_detail rounds fuel w none_left stopped queue =
      (Meets-perform is_save is_detail rounds fuel).at w (none_left, stopped, queue)
