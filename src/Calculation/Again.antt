-- ===== src/Calculation/Again.antt =====
-- What a calculation of `Perform` (`DPSCalc/DPSCalc.cpp`) takes over from the calculations before it.
use dpscalclua.Base.{ℕ, ◌≡◌, refl, Bool, true, false}
use dpscalclua.Double.{Double}
use dpscalclua.Store.{World, get, modify, ◌>>=◌}
use dpscalclua.Script.{Env}
use dpscalclua.Loading.{Code}
use dpscalclua.Calculation.{set_up, lua_initialize, perform}
use dpscalclua.Reporter.Object.{new_reporter}

-- The store `w`, with the Lua state, the databases, the creatures, the player, the queue, the clock and the
-- damage counter of another one.
abbrev pub left_by : {D L : Type 0} → World D L → World D L → World D L
left_by v w = record w {
  damage_counter = v.damage_counter;
  system = v.system;
  player = v.player;
  normalize_crit = v.normalize_crit;
  aura_db = v.aura_db;
  spell_db = v.spell_db;
  creatures = v.creatures;
  lua = v.lua;
}

module _ {D V L : Type 0} ⦃d : Double D⦄ (env : Env D V L) (code : Code V D L) where
  -- When the global pointers are NULL and a Lua state can be made: whatever Lua state, databases, creatures, player, queue, clock and damage
  -- counter another calculation has left, a calculation runs as it would without them, to the same result or
  -- fault and the same store.
  pub perform-left_by :
      (save detail : Bool) (rounds fuel : ℕ) (v w : World D L)
      → w.has_player ≡ false
      → code.opens ≡ true
      → perform env code save detail rounds fuel (left_by v w)
        ≡ perform env code save detail rounds fuel w
  unfolding perform get set_up lua_initialize modify ◌>>=◌ new_reporter
  perform-left_by save true rounds fuel v w n h = rw (n, h) refl
  perform-left_by save false rounds fuel v w n h = rw (n, h) refl
