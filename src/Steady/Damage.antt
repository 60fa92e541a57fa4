-- ===== src/Steady/Damage.antt =====
-- The damage counter of `DPSCalc/DPSCalc.cpp` is the sum of the reports, the reports stay, and the queue
-- of `CEventSystem` stays in order, through whole runs.
use dpscalclua.Base.{ℕ, ◌≡◌, refl, sym, subst, ◌∙◌, Bool, List, [], ◌++◌, some}
use mathlib.Core.List.{append_assoc}
use dpscalclua.Double.{Double}
use dpscalclua.Store.{DamageInfo, World, Outcome, done, fault}
use dpscalclua.Script.{Env}
use dpscalclua.Simulation.{main_loop}
use dpscalclua.Totals.{IsAccounted, has_reports}
use dpscalclua.Queue.Shape.{IsOrdered, event_map-advance}
use dpscalclua.Errors.Rules.{Leads}
use dpscalclua.Steady.Rules.{Output, output}
use dpscalclua.Steady.Runs.{IsKept, Holds-main_loop}

-- The counter is the sum of the reports, there is a reporter as `detail` says, and the output is `old`.
pub record IsTallied {D L : Type 0} (detail : Bool) (old : Output) (w : World D L) : Type 0 where
  pub counted : IsAccounted w
  pub detailed : has_reports w ≡ detail
  pub listed : output w ≡ old

abbrev pub HasReports : {D L : Type 0} → List DamageInfo → World D L → Type 0
HasReports l w = (added : List DamageInfo) × (w.reports ≡ some (added ++ l))

module _ {D L : Type 0} where
  pub IsTallied-IsKept :
      (detail : Bool) (old : Output) → IsKept (IsTallied {D = D} {L = L} detail old)
  IsTallied-IsKept detail old = record {
    grows = λ w v g t. record {
      counted = g.counted t.counted;
      detailed = g.detailed ∙ t.detailed;
      listed = g.listed ∙ t.listed;
    };
    advances = λ w next t. record { counted = t.counted; detailed = t.detailed; listed = t.listed };
  }

  HasReports-IsKept : (l : List DamageInfo) → IsKept (HasReports {D = D} {L = L} l)
  HasReports-IsKept l = record {
    grows = λ w v g t.
        let (added, e, all) = g.stamped (t.0 ++ l) t.1 in
        (added ++ t.0, rw (append_assoc added t.0 l) e);
    advances = λ w next t. t;
  }

  IsOrdered-IsKept : IsKept (λ (w : World D L). IsOrdered w.system.event_map)
  IsOrdered-IsKept = record {
    grows = λ w v g o. g.ordered o;
    advances = λ w next o. subst IsOrdered (sym (event_map-advance w.system next)) o;
  }

module _ {D V L : Type 0} ⦃d : Double D⦄ (env : Env D V L) where
  Leads-counted :
      (detail : Bool) (old : Output) (o : Outcome (World D L) Bool)
      → Leads (λ b. IsTallied detail old) o
      → Leads (λ b v. IsAccounted v) o
  Leads-counted detail old (done b v) h = h.counted
  Leads-counted detail old (fault f) h = tt

  -- Through any number of rounds of the loop of `Perform`, and whatever the scripts do, the damage counter
  -- stays the sum of the damage of the reports, modulo 2 ^ 32.
  pub main_loop-IsAccounted :
      (rounds fuel : ℕ) (w : World D L)
      → IsAccounted w
      → Leads (λ b v. IsAccounted v) (main_loop env rounds fuel w)
  main_loop-IsAccounted rounds fuel w h =
      Leads-counted (has_reports w) (output w) (main_loop env rounds fuel w) (
        (Holds-main_loop (IsTallied-IsKept (has_reports w) (output w)) env rounds fuel).at w
          (record { counted = h; detailed = refl; listed = refl }))

  -- Through any number of rounds of the loop of `Perform`, and whatever the scripts do, no report is removed
  -- or changed: new ones are put before those that were there.
  pub main_loop-HasReports :
      (rounds fuel : ℕ) (w : World D L) (l : List DamageInfo)
      → w.reports ≡ some l
      → Leads (λ b v. HasReports l v) (main_loop env rounds fuel w)
  main_loop-HasReports rounds fuel w l e =
      (Holds-main_loop (HasReports-IsKept l) env rounds fuel).at w ([], e)

  -- Through any number of rounds of the loop of `Perform`, and whatever the scripts do, the queue stays in
  -- order: its times ascend strictly and are below 2 ^ 32, and no time is without an event.
  pub main_loop-IsOrdered :
      (rounds fuel : ℕ) (w : World D L)
      → IsOrdered w.system.event_map
      → Leads (λ b v. IsOrdered v.system.event_map) (main_loop env rounds fuel w)
  main_loop-IsOrdered rounds fuel w h = (Holds-main_loop IsOrdered-IsKept env rounds fuel).at w h
