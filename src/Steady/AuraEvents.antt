-- ===== src/Steady/AuraEvents.antt =====
-- `CAuraEvent::operator()` and what it calls leave the clock alone.
use dpscalclua.Queue.Shape.{IsOrdered}
use dpscalclua.Base.{
  refl, sym, subst, inl, inr, [], ◌∷◌, ◌==◌, Bool-cases, ℕ, ◌≡◌, Bool, String, arith,
}
use dpscalclua.Double.{Double}
use dpscalclua.Aura.{Aura}
use dpscalclua.Event.{Event, Additionals, AuraPart, Body, of_spell, of_aura}
use dpscalclua.Store.{World, get, modify, ◌>>=◌}
use dpscalclua.Totals.{has_reports, report_damage-IsAccounted}
use dpscalclua.Script.{Env}
use dpscalclua.Combat.AuraEvents.{
  aura_part_of, read_aura_event, set_part, refresh_aura, new_fade_time, follow_up, apply_new_aura,
  run_application, same_aura, remove_when_due, run_removal, tick, next_tick, run_periodic,
  run_aura_event,
}
use dpscalclua.Combat.Report.{report_event, report_damage}
use dpscalclua.Steady.Rules.{Stays, Grows, IsStamped, now, output, stay_rules}
use dpscalclua.Steady.Steps.{steady_rules}
use dpscalclua.Steady.Units.{Stays-aura_get_damage}
use dpscalclua.Steady.Routines.{Stays-call_lua_function}

now-report_damage :
    {D L : Type 0} (name : String) (damage time : ℕ) (crit : Bool) (w : World D L)
    → now (report_damage name damage time crit w) ≡ now w
unfolding report_damage
now-report_damage name damage time crit w = ground arith

has_reports-report_damage :
    {D L : Type 0} (name : String) (damage time : ℕ) (crit : Bool) (w : World D L)
    → has_reports (report_damage name damage time crit w) ≡ has_reports w
unfolding report_damage
has_reports-report_damage name damage time crit w = ground arith

IsStamped-report_damage :
    {D L : Type 0} (name : String) (damage : ℕ) (crit : Bool) (w : World D L)
    → IsStamped (now w) w.reports (report_damage name damage (now w) crit w).reports
unfolding report_damage
IsStamped-report_damage name damage crit w l e = elim (Bool-cases (damage == 0)) [
  | inl z ↦ rw z ([], e, tt)
  | inr z ↦
      rw (z, e)
        (
          record { spell_name = name; damage = damage; game_time = now w; is_crit = crit } ∷ [],
          refl,
          (refl, tt),
        )
]

event_map-report_damage :
    {D L : Type 0} (name : String) (damage time : ℕ) (crit : Bool) (w : World D L)
    → (report_damage name damage time crit w).system.event_map ≡ w.system.event_map
unfolding report_damage
event_map-report_damage name damage time crit w = ground arith

output-report_damage :
    {D L : Type 0} (name : String) (damage time : ℕ) (crit : Bool) (w : World D L)
    → output (report_damage name damage time crit w) ≡ output w
unfolding report_damage
output-report_damage name damage time crit w = ground arith

Grows-report_damage :
    {D L : Type 0} (name : String) (damage : ℕ) (crit : Bool) (w : World D L)
    → Grows w (report_damage name damage (now w) crit w)
Grows-report_damage name damage crit w = record {
  steady = now-report_damage name damage (now w) crit w;
  counted = report_damage-IsAccounted name damage (now w) crit w;
  detailed = has_reports-report_damage name damage (now w) crit w;
  stamped = IsStamped-report_damage name damage crit w;
  ordered = λ h. subst IsOrdered (sym (event_map-report_damage name damage (now w) crit w)) h;
  listed = output-report_damage name damage (now w) crit w;
}

pub Stays-report_event :
    {D L : Type 0} ⦃d : Double D⦄ (name : String) (x : Additionals D) (damage : ℕ) (crit : Bool)
    → Stays (report_event {L = L} name x damage crit)
unfolding report_event get modify ◌>>=◌
Stays-report_event name x damage crit = record { at = λ w. Grows-report_damage name _ crit w }

module _ {D L : Type 0} where
  Stays-aura_part_of : (b : Body) → Stays (aura_part_of {D = D} {L = L} b)
  unfolding aura_part_of
  Stays-aura_part_of (of_aura a) = search stay_rules
  Stays-aura_part_of (of_spell s) = search stay_rules

  Stays-read_aura_event : (this : ℕ) → Stays (read_aura_event {D = D} {L = L} this)
  unfolding read_aura_event
  Stays-read_aura_event this = search (steady_rules, Stays-aura_part_of) depth 30

  Stays-set_part : (e : Event D) (a : AuraPart) → Stays (set_part {D = D} {L = L} e a)
  unfolding set_part
  Stays-set_part e a = search (steady_rules) depth 30

ruleset aura_steps = (steady_rules, Stays-read_aura_event, Stays-set_part, Stays-call_lua_function)

module _ {D V L : Type 0} ⦃d : Double D⦄ (env : Env D V L) where
  Stays-refresh_aura :
      (e : Event D) (a : AuraPart) (t : Aura D) (addr : ℕ)
      → Stays (refresh_aura {D = D} {L = L} env e a t addr)
  unfolding refresh_aura
  Stays-refresh_aura e a t addr = search aura_steps depth 30

  Stays-new_fade_time :
      (e : Event D) (a : AuraPart) (t : Aura D) → Stays (new_fade_time {D = D} {L = L} env e a t)
  unfolding new_fade_time
  Stays-new_fade_time e a t = search aura_steps depth 30

  Stays-follow_up :
      (e : Event D) (a : AuraPart) (kind delay : ℕ) (set : AuraPart → AuraPart)
      → Stays (follow_up {D = D} {L = L} env e a kind delay set)
  unfolding follow_up
  Stays-follow_up e a kind delay set = search aura_steps depth 30

  Stays-apply_new_aura :
      (e : Event D) (a : AuraPart) (t : Aura D) → Stays (apply_new_aura {D = D} {L = L} env e a t)
  unfolding apply_new_aura
  Stays-apply_new_aura e a t = search (aura_steps, Stays-new_fade_time, Stays-follow_up) depth 30

  Stays-run_application : (this : ℕ) → Stays (run_application {D = D} {L = L} env this)
  unfolding run_application
  Stays-run_application this =
      search (aura_steps, Stays-refresh_aura, Stays-apply_new_aura) depth 30

  Stays-same_aura :
      (e : Event D) (a : AuraPart) (t : Aura D) → Stays (same_aura {D = D} {L = L} env e a t)
  unfolding same_aura
  Stays-same_aura e a t = search aura_steps depth 30

  Stays-remove_when_due :
      (this : ℕ) (e : Event D) (t : Aura D) (addr : ℕ)
      → Stays (remove_when_due {D = D} {L = L} env this e t addr)
  unfolding remove_when_due
  Stays-remove_when_due this e t addr = search aura_steps depth 30

  Stays-run_removal : (this : ℕ) → Stays (run_removal {D = D} {L = L} env this)
  unfolding run_removal
  Stays-run_removal this = search (aura_steps, Stays-same_aura, Stays-remove_when_due) depth 30

  Stays-tick : (this : ℕ) (t : Aura D) → Stays (tick {D = D} {L = L} env this t)
  unfolding tick
  Stays-tick this t = search (aura_steps, Stays-aura_get_damage, Stays-report_event) depth 30

  Stays-next_tick : (this addr : ℕ) → Stays (next_tick {D = D} {L = L} env this addr)
  unfolding next_tick
  Stays-next_tick this addr = search aura_steps depth 30

  Stays-run_periodic : (this : ℕ) → Stays (run_periodic {D = D} {L = L} env this)
  unfolding run_periodic
  Stays-run_periodic this =
      search (aura_steps, Stays-same_aura, Stays-tick, Stays-next_tick) depth 30

  pub Stays-run_aura_event : (this : ℕ) → Stays (run_aura_event {D = D} {L = L} env this)
  unfolding run_aura_event
  Stays-run_aura_event this =
      search (aura_steps, Stays-run_application, Stays-run_removal, Stays-run_periodic) depth 30
