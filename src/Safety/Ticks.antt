-- ===== src/Safety/Ticks.antt =====
-- `AuraPeriodic` and the choice of `CAuraEvent::operator()` keep the events owned.
use dpscalclua.Base.{ℕ, ◌≡◌, Bool, String, arith}
use dpscalclua.Double.{Double}
use dpscalclua.Aura.{Aura}
use dpscalclua.Event.{Additionals}
use dpscalclua.Store.{World}
use dpscalclua.Script.{Env}
use dpscalclua.Combat.AuraEvents.{tick, next_tick, run_periodic, run_aura_event}
use dpscalclua.Combat.Report.{report_event, report_damage}
use dpscalclua.Safety.Meets.{Meets, Keeps}
use dpscalclua.Safety.Core.{Core, core, On, frame_rules}
use dpscalclua.Safety.Steps.{heap_rules}
use dpscalclua.Safety.Current.{Keeps-aura_get_damage}
use dpscalclua.Safety.Routines.{Keeps-call_lua_function}
use dpscalclua.Safety.Owned.{Slot, Busy}
use dpscalclua.Safety.Running.{Busy-IsFrame, Meets-read_this}
use dpscalclua.Safety.AuraEvents.{
  IsAuraSlot, IsMine-extra, Ended, Ends-over, Ends-enqueue, Meets-read_aura_this, Keeps-set_part,
  Keeps-same_aura, Meets-run_application, Meets-run_removal,
}

core-report_damage :
    {D L : Type 0} (name : String) (damage time : ℕ) (crit : Bool) (w : World D L)
    → core (report_damage name damage time crit w) ≡ core w
unfolding report_damage
core-report_damage name damage time crit w = ground arith

pub Keeps-report_event :
    {D L : Type 0} ⦃d : Double D⦄ {P : Core D → Type 0} (name : String) (x : Additionals D)
    (damage : ℕ) (crit : Bool)
    → Keeps (On P) (report_event {L = L} name x damage crit)
unfolding report_event
Keeps-report_event name x damage crit = search (frame_rules, core-report_damage)

module _ {D V L : Type 0} ⦃d : Double D⦄ (env : Env D V L) {s : Slot} (k : IsAuraSlot s) where
  Keeps-tick : (t : Aura D) → Keeps (On (Busy s 0)) (tick {L = L} env s.this t)
  unfolding tick
  Keeps-tick t =
      search
        (
          heap_rules,
          Meets-read_aura_this k,
          Keeps-aura_get_damage,
          Keeps-set_part k,
          Keeps-report_event,
        )
        depth 30

  Meets-next_tick : (addr : ℕ) → Meets (On (Busy s 0)) (next_tick {L = L} env s.this addr) (Ended s)
  unfolding next_tick
  Meets-next_tick addr =
      search
        (
          heap_rules,
          Meets-read_aura_this k,
          IsMine-extra,
          Keeps-set_part k,
          Ends-over,
          Ends-enqueue,
        )
        depth 30

  Meets-run_periodic : Meets (On (Busy s 0)) (run_periodic {L = L} env s.this) (Ended s)
  unfolding run_periodic
  Meets-run_periodic =
      search
        (
          heap_rules,
          Meets-read_aura_this k,
          Keeps-same_aura,
          Ends-over,
          Keeps-call_lua_function env Busy-IsFrame,
          Keeps-tick,
          Meets-next_tick,
        )
        depth 30

  pub Meets-run_aura_event : Meets (On (Busy s 0)) (run_aura_event {L = L} env s.this) (Ended s)
  unfolding run_aura_event
  Meets-run_aura_event =
      search
        (
          heap_rules,
          Meets-read_this,
          Meets-run_application env k,
          Meets-run_removal env k,
          Meets-run_periodic,
          Ends-over,
        )
        depth 30
