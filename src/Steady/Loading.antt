-- ===== src/Steady/Loading.antt =====
-- The loading of scripts leaves the clock alone.
use dpscalclua.Base.{ℕ, zero, suc, Bool, true, false, List, [], ◌∷◌, Option, none, some}
use dpscalclua.Double.{Double}
use dpscalclua.Store.{World, M}
use dpscalclua.Script.{Env, Prog}
use dpscalclua.Loading.{
  Code, script_path, unless_failed, run_lua_code, load_line, load_lines, load_toc,
}
use dpscalclua.Steady.Rules.{Stays, Stays-bind, Stays-option, stay_rules}
use dpscalclua.Steady.Routines.{Stays-run_prog}

module _ {D V L : Type 0} ⦃d : Double D⦄ (env : Env D V L) (code : Code V D L) where
  Stays-script_path : (name : List ℕ) → Stays (script_path {D = D} {L = L} name)
  unfolding script_path
  Stays-script_path name = search stay_rules

  Stays-unless_failed :
      (r : Option Bool) (next : M (World D L) (Option Bool))
      → Stays (next)
      → Stays (unless_failed r next)
  unfolding unless_failed
  Stays-unless_failed (some true) next h = h
  Stays-unless_failed (some false) next h = search stay_rules
  Stays-unless_failed none next h = search stay_rules

  pub Stays-run_lua_code : (p : Option (L → Prog V D L)) → Stays (run_lua_code env code p)
  unfolding run_lua_code
  Stays-run_lua_code none = search stay_rules
  Stays-run_lua_code (some p) = Stays-bind _ _ (search stay_rules) λ w. Stays-run_prog env (p w.lua)

  module _ (load : List ℕ → M (World D L) (Option Bool))
      (h : (name : List ℕ) → Stays (load name)) where
    Stays-load_line : (line : List ℕ) → Stays (load_line env code load line)
    unfolding load_line
    Stays-load_line line = search (stay_rules, h, Stays-script_path, Stays-run_lua_code) depth 20

    Stays-load_lines : (lines : List (List ℕ)) → Stays (load_lines env code load lines)
    unfolding load_lines
    Stays-load_lines [] = search stay_rules
    Stays-load_lines (line ∷ rest) =
        Stays-bind _ _ (Stays-load_line line) λ r. Stays-unless_failed r _ (Stays-load_lines rest)

  pub Stays-load_toc : (fuel : ℕ) (name : List ℕ) → Stays (load_toc env code fuel name)
  unfolding load_toc
  Stays-load_toc zero name = search stay_rules
  Stays-load_toc (suc fuel) name = Stays-bind _ _ (Stays-script_path name) λ path.
      Stays-option (code.open_file path) _ _ (search stay_rules)
        λ bytes. Stays-load_lines (load_toc env code fuel) (Stays-load_toc fuel) _
