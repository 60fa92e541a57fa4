-- ===== src/Steady/Result.antt =====
-- What `Perform` (`DPSCalc/DPSCalc.cpp`) gives back, against the table and the files of the reporter.
use dpscalclua.Base.{
  if◌then◌else◌, ℕ, zero, suc, ◌≡◌, refl, sym, subst, Bool, true, false, not, [], some, arith,
}
use dpscalclua.Double.{Double}
use dpscalclua.Store.{World, M, pure, get, modify, on_option, ◌>>=◌, ◌>>◌}
use dpscalclua.Script.{Env, on_test_start, on_test_finish}
use dpscalclua.Loading.{Code}
use dpscalclua.Reporter.Object.{new_reporter}
use dpscalclua.Player.{Player, new_player}
use dpscalclua.EventSystem.{EventSystem, new_event_system}
use dpscalclua.Calculation.{
  beyond, spare_loop, calculate_left, Verdict, not_loaded, out_of_fuel, result, set_up,
  lua_initialize, damage_per_second, tear_down, calculate, perform,
}
use dpscalclua.Errors.Rules.{Leads}
use dpscalclua.Steady.Rules.{Stays, Output, output, stay_rules}
use dpscalclua.Steady.Takes.{
  Takes, Takes-get, Takes-modify, Takes-pure, Takes-if, Takes-option, Takes-bind,
}
use dpscalclua.Steady.Routines.{Stays-call_lua_function}
use dpscalclua.Steady.Loading.{Stays-run_lua_code, Stays-load_toc}
use dpscalclua.Steady.Written.{Agrees, Agrees-LeftBy, LeftBy}
use dpscalclua.Steady.Destroyed.{facts, Destroyed, Takes-tear_down}
use dpscalclua.Steady.Runs.{Holds-Stays, Holds-main_loop}
use dpscalclua.Steady.Damage.{IsTallied, IsTallied-IsKept}

abbrev After : {D L A : Type 0} → Bool → Output → A → World D L → Type 0
After detail old a = IsTallied detail old

-- The result is the damage over the time, and the table and the files agree with the damage.
abbrev pub IsSettled :
    {D V L : Type 0} ⦃d : Double D⦄ → Code V D L → Bool → Output → Verdict D → World D L → Type 0
IsSettled ⦃d⦄ code detail old (result x) w =
    (x
      ≡ d.float_div (d.float_of_word w.damage_counter)
          (d.float_div (d.float_of_word w.system.game_time) (d.float_lit 1000 0)))
    × Agrees code.less code.print_float detail old (output w) w.damage_counter
IsSettled code detail old not_loaded w = Unit {0}
IsSettled code detail old out_of_fuel w = Unit {0}
IsSettled code detail old beyond w = Unit {0}

module _ {D V L : Type 0} ⦃d : Double D⦄ (env : Env D V L) (code : Code V D L) where
  Takes-settle :
      (detail : Bool) (old : Output) (v : World D L)
      → IsTallied detail old v
      → Takes
          (λ w. facts w ≡ facts v)
          (tear_down env code >> pure (result (damage_per_second env code v)))
          (IsSettled code detail old)
  unfolding damage_per_second
  Takes-settle detail old v t =
      Takes-bind (Destroyed code.less code.print_float (facts v)) _ _
        (Takes-tear_down env code (facts v))
        λ u. Takes-pure (IsSettled code detail old) _ λ w h.
          let agrees : Agrees code.less code.print_float detail old (output w) v.damage_counter =
            Agrees-LeftBy code.less code.print_float detail v.reports old (output w)
              v.damage_counter t.detailed
              (subst (λ b. LeftBy code.less code.print_float v.reports b (output w)) t.listed h.2)
              t.counted in
          rw (h.0, h.1) (refl, agrees)

  Takes-finish :
      (detail : Bool) (old : Output)
      → Takes
          (IsTallied detail old)
          (get >>= λ v. tear_down env code >> pure (result (damage_per_second env code v)))
          (IsSettled code detail old)
  unfolding get ◌>>=◌
  Takes-finish detail old = record { at = λ v t. (Takes-settle detail old v t).at v refl }

  module _ (detail : Bool) (old : Output) where
    Takes-Stays :
        {A : Type 0} (m : M (World D L) A)
        → Stays m
        → Takes (IsTallied detail old) m (After detail old)
    Takes-Stays m h = Holds-Stays (IsTallied-IsKept detail old) m h

    Takes-calculate :
        (rounds fuel : ℕ)
        → Takes (IsTallied detail old) (calculate env code rounds fuel) (IsSettled code detail old)
    unfolding calculate
    Takes-calculate rounds fuel =
        Takes-bind (After detail old) _ _
          (Takes-Stays _ (Stays-run_lua_code env code code.additional))
          λ u.
            Takes-bind (After detail old) _ _
              (Takes-Stays _ (Stays-call_lua_function env on_test_start 0))
              λ u.
                Takes-bind (After detail old) _ _
                  (Holds-main_loop (IsTallied-IsKept detail old) env rounds fuel)
                  λ ended. Takes-if (not ended) _ _ (Takes-pure _ _ λ w h. tt) (
                    Takes-bind (After detail old) _ _ Takes-get λ w.
                      Takes-bind (After detail old) _ _
                        (Takes-Stays _
                          (Stays-run_lua_code env code (some (code.dps w.damage_counter))))
                        λ u.
                          Takes-bind (After detail old) _ _
                            (Takes-Stays _ (Stays-call_lua_function env on_test_finish 0))
                            λ u. Takes-finish detail old)

    Stays-spare_loop :
        (rounds : ℕ) (s : EventSystem) (p : Player D) → Stays (spare_loop env code rounds s p)
    unfolding spare_loop
    Stays-spare_loop zero s p = search stay_rules
    Stays-spare_loop (suc rounds) s p =
        search (stay_rules, Stays-call_lua_function, Stays-spare_loop rounds) depth 20

    Takes-calculate_left :
        (rounds : ℕ)
        → Takes (IsTallied detail old) (calculate_left env code rounds) (IsSettled code detail old)
    unfolding calculate_left
    Takes-calculate_left rounds =
        Takes-bind (After detail old) _ _
          (Takes-Stays _ (Stays-run_lua_code env code code.additional))
          λ u.
            Takes-bind (After detail old) _ _
              (Takes-Stays _ (Stays-call_lua_function env on_test_start 0))
              λ u.
                Takes-bind (After detail old) _ _
                  (Takes-Stays _ (Stays-spare_loop rounds new_event_system new_player))
                  λ ended. Takes-if ended _ _ (Takes-pure _ _ λ w h. tt) (Takes-pure _ _ λ w h. tt)

  -- A new reporter empties the table.
  abbrev pub output_before : (save detail : Bool) → World D L → Output
  output_before save true w = record (output w) { save = save; table = [] }
  output_before save false w = output w

  fresh_start :
      (save detail : Bool) (w : World D L)
      → IsTallied detail (output_before save detail w) (set_up env code save detail w)
  unfolding set_up new_reporter
  fresh_start save true w = record { counted = λ v e. ground arith; detailed = refl; listed = refl }
  fresh_start save false w = record {
    counted = λ v e. ground arith;
    detailed = refl;
    listed = refl;
  }

  Takes-start :
      (save detail : Bool) (w : World D L)
      → Takes
          (λ v. v ≡ w)
          (modify (set_up env code save detail))
          (After detail (output_before save detail w))
  Takes-start save detail w = Takes-modify _ _ λ v e.
      subst (λ x. IsTallied detail (output_before save detail w) (set_up env code save detail x))
        (sym e) (fresh_start save detail w)

  Stays-lua_initialize : (fuel : ℕ) → Stays (lua_initialize {L = L} env code fuel)
  unfolding lua_initialize
  Stays-lua_initialize fuel =
      search (stay_rules, Stays-run_lua_code env code, Stays-load_toc env code) depth 20

  -- From `Lua_Initialize` on; `left` says whether the pointers were left over.
  Takes-from_loading :
      (left detail : Bool) (old : Output) (rounds fuel : ℕ)
      → Takes
          (IsTallied detail old)
          (lua_initialize env code fuel >>= λ loaded. on_option loaded (pure out_of_fuel) λ ok.
            if ok
            then (if left then calculate_left env code rounds else calculate env code rounds fuel)
            else pure not_loaded)
          (IsSettled code detail old)
  Takes-from_loading left detail old rounds fuel =
      Takes-bind (After detail old) _ _ (Takes-Stays detail old _ (Stays-lua_initialize fuel))
        λ loaded. Takes-option loaded _ _ (Takes-pure _ out_of_fuel λ w h. tt) λ ok.
          Takes-if ok _ _
            (Takes-if left _ _ (Takes-calculate_left detail old rounds)
              (Takes-calculate detail old rounds fuel))
            (Takes-pure _ not_loaded λ w h. tt)

  -- A calculation that comes to its result, whatever the scripts do, returns the damage counter divided
  -- by the time in seconds. With a reporter the damage of the rows of the table is in sum the damage
  -- counter, modulo 2 ^ 32. If it also saves, the lines of reports whose damage is the counter, modulo
  -- 2 ^ 32, and three line feeds are put behind the first file; and the counter, the line of each row and
  -- three line feeds behind the second. If it does not save, the files are those of before. Without a
  -- reporter the table and the files are those of before.
  pub perform-IsSettled :
      (save detail : Bool) (rounds fuel : ℕ) (w : World D L)
      → Leads
          (IsSettled code detail (output_before save detail w))
          (perform env code save detail rounds fuel w)
  unfolding perform get ◌>>=◌
  perform-IsSettled save detail rounds fuel w =
      let old = output_before save detail w in
      (Takes-bind (After detail old) _ _ (Takes-start save detail w)
          λ u. Takes-from_loading w.has_player detail old rounds fuel).at
        w refl
