-- ===== src/Steady/Runs.antt =====
-- What events, scripts and the clock keep is kept by the loop of `Perform`.
use dpscalclua.Base.{ℕ, zero, suc, false, true, not, none}
use dpscalclua.Double.{Double}
use dpscalclua.EventSystem.{advance}
use dpscalclua.Store.{World, Outcome, M, done, fault, modify, pure, ◌>>=◌}
use dpscalclua.Script.{Env}
use dpscalclua.Simulation.{due, set_system, process_event, running, round, main_loop}
use dpscalclua.Errors.Rules.{Leads}
use dpscalclua.Steady.Rules.{Grows, Stays, Shows, stay_rules}
use dpscalclua.Steady.Takes.{
  Takes, Takes-get, Takes-modify, Takes-pure, Takes-if, Takes-option, Takes-bind,
}
use dpscalclua.Steady.Routines.{Stays-call_lua_function}
use dpscalclua.Steady.Loop.{Stays-process_entry}

pub record IsKept {D L : Type 0} (P : World D L → Type 0) : Type 0 where
  pub grows : (w v : World D L) → Grows w v → P w → P v
  pub advances : (w : World D L) (next : ℕ) → P w → P (set_system (λ s. advance s next) w)

abbrev pub Holds : {D L A : Type 0} → (World D L → Type 0) → M (World D L) A → Type 0
Holds P m = Takes P m (λ a. P)

module _ {D L : Type 0} {P : World D L → Type 0} (K : IsKept P) where
  Leads-Shows :
      {A : Type 0} (w : World D L) (o : Outcome (World D L) A) → P w → Shows w o → Leads (λ a. P) o
  Leads-Shows w (done a v) p h = K.grows w v h p
  Leads-Shows w (fault f) p h = tt

  pub Holds-Stays : {A : Type 0} (m : M (World D L) A) → Stays m → Holds P m
  Holds-Stays m h = record { at = λ w p. Leads-Shows w (m w) p (h.at w) }

  Holds-bind :
      {A B : Type 0} (m : M (World D L) B) (f : B → M (World D L) A)
      → Holds P m
      → ((b : B) → Holds P (f b))
      → Holds P (m >>= f)
  Holds-bind m f h k = Takes-bind (λ b. P) m f h k

  Holds-pure : {A : Type 0} (a : A) → Holds P (pure a)
  Holds-pure a = Takes-pure _ a λ w p. p

  Holds-advance : (next : ℕ) → Holds P (modify (set_system λ s. advance s next))
  Holds-advance next = Takes-modify _ _ λ w p. K.advances w next p

  module _ {V : Type 0} ⦃d : Double D⦄ (env : Env D V L) where
    Holds-process_event : (fuel next : ℕ) → Holds P (process_event env fuel next)
    unfolding process_event
    Holds-process_event zero next = Holds-pure none
    Holds-process_event (suc fuel) next = Holds-bind _ _ Takes-get λ w.
        Takes-option (due w.system) _ _ (Holds-bind _ _ (Holds-advance next) λ u. Holds-pure _) λ x.
          Holds-bind _ _ (Holds-Stays _ (Stays-process_entry env x.0 x.1)) λ u.
            Holds-bind _ _ Takes-get
              λ z. Takes-option (due z.system) _ _ (Holds-pure _) λ y. Holds-process_event fuel next

    Holds-round : (fuel : ℕ) → Holds P (round env fuel)
    unfolding round
    Holds-round fuel = Holds-bind _ _ Takes-get λ w.
        Holds-bind _ _ (Holds-process_event fuel _) λ r.
          Takes-option r _ _ (Holds-pure _)
            λ b. Holds-Stays _ (search (stay_rules, Stays-call_lua_function) depth 12)

    pub Holds-main_loop : (rounds fuel : ℕ) → Holds P (main_loop env rounds fuel)
    unfolding main_loop
    Holds-main_loop zero fuel = Holds-pure false
    Holds-main_loop (suc rounds) fuel = Holds-bind _ _ Takes-get λ w.
        Takes-if (not (running env w)) (pure true) _ (Holds-pure true) (
          Holds-bind (round env fuel) _ (Holds-round fuel)
            λ r. Takes-option r (pure false) _ (Holds-pure false) λ b. Holds-main_loop rounds fuel)
