-- ===== src/Safety/Loading.antt =====
-- The loading of scripts keeps every frame.
use dpscalclua.Base.{ℕ, zero, suc, Bool, true, false, List, [], ◌∷◌, Option, none, some}
use dpscalclua.Double.{Double}
use dpscalclua.Store.{World, M}
use dpscalclua.Script.{Env, Prog}
use dpscalclua.Loading.{
  Code, script_path, unless_failed, run_lua_code, load_line, load_lines, load_toc,
}
use dpscalclua.Safety.Meets.{Keeps, Keeps-bind, Meets-option}
use dpscalclua.Safety.Core.{Core, On, IsFrame, frame_rules}
use dpscalclua.Safety.Routines.{Keeps-run_prog}

module _ {D V L : Type 0} ⦃d : Double D⦄ (env : Env D V L) (code : Code V D L) {P : Core D → Type 0}
    (F : IsFrame P) where
  Keeps-script_path : (name : List ℕ) → Keeps (On P) (script_path {D = D} {L = L} name)
  unfolding script_path
  Keeps-script_path name = search frame_rules

  Keeps-unless_failed :
      (r : Option Bool) (next : M (World D L) (Option Bool))
      → Keeps (On P) (next)
      → Keeps (On P) (unless_failed r next)
  unfolding unless_failed
  Keeps-unless_failed (some true) next h = h
  Keeps-unless_failed (some false) next h = search frame_rules
  Keeps-unless_failed none next h = search frame_rules

  pub Keeps-run_lua_code : (p : Option (L → Prog V D L)) → Keeps (On P) (run_lua_code env code p)
  unfolding run_lua_code
  Keeps-run_lua_code none = search frame_rules
  Keeps-run_lua_code (some p) =
      Keeps-bind _ _ (search frame_rules) λ w. Keeps-run_prog env F (p w.lua)

  module _ (load : List ℕ → M (World D L) (Option Bool))
      (h : (name : List ℕ) → Keeps (On P) (load name)) where
    Keeps-load_line : (line : List ℕ) → Keeps (On P) (load_line env code load line)
    unfolding load_line
    Keeps-load_line line = search (frame_rules, h, Keeps-script_path, Keeps-run_lua_code) depth 20

    Keeps-load_lines : (lines : List (List ℕ)) → Keeps (On P) (load_lines env code load lines)
    unfolding load_lines
    Keeps-load_lines [] = search frame_rules
    Keeps-load_lines (line ∷ rest) =
        Keeps-bind _ _ (Keeps-load_line line) λ r. Keeps-unless_failed r _ (Keeps-load_lines rest)

  pub Keeps-load_toc : (fuel : ℕ) (name : List ℕ) → Keeps (On P) (load_toc env code fuel name)
  unfolding load_toc
  Keeps-load_toc zero name = search frame_rules
  Keeps-load_toc (suc fuel) name = Keeps-bind _ _ (Keeps-script_path name) λ path.
      Meets-option (code.open_file path) _ _ (search frame_rules)
        λ bytes e. Keeps-load_lines (load_toc env code fuel) (Keeps-load_toc fuel) _
