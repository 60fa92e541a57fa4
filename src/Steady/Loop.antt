-- ===== src/Steady/Loop.antt =====
-- The turns of `ProcessEvent` leave the clock alone.
use dpscalclua.Base.{
  refl, ℕ, zero, suc, ◌≡◌, sym, ap, subst, ◌∙◌, inl, inr, Bool, true, false, none, List, [], ◌∷◌,
  Option, some,
}
use dpscalclua.Double.{Double}
use dpscalclua.Event.{CreatureRef, Body, of_spell, of_aura}
use dpscalclua.Store.{World, M, done, pure, get, modify, on_option, ◌>>=◌}
use dpscalclua.Processed.{bind-inv, option-inv}
use dpscalclua.Script.{Env}
use dpscalclua.EventSystem.{advance, pop_front}
use dpscalclua.Queue.Shape.{pop_front-IsOrdered}
use dpscalclua.Simulation.{
  set_system, due, set_current, run_body, dispatch_event, dispatch_first, process_entry,
  process_event,
}
use dpscalclua.Steady.Rules.{Stays, Stays-bind, Shows, IsStamped, IsStamped-trans, now, stay_rules}
use dpscalclua.Steady.Steps.{steady_rules}
use dpscalclua.Steady.AuraEvents.{Stays-run_aura_event}
use dpscalclua.Steady.SpellEvents.{Stays-run_spell_event}

end_at : {D L : Type 0} (u v : World D L) → done (some true) u ≡ done (some true) v → now v ≡ now u
end_at {D} {L} u v h = let same : u ≡ v = cc h in sym (ap (λ (z : World D L). now z) same)

Stays-pop_front :
    {D L : Type 0} (t : ℕ)
    → Stays (
        modify {S = World D L} (set_system (λ s. record s { event_map = pop_front t s.event_map })))
unfolding modify
Stays-pop_front t = record {
  at = λ w. record {
    steady = refl;
    counted = λ c. c;
    detailed = refl;
    stamped = λ l g. ([], g, tt);
    ordered = pop_front-IsOrdered t w.system.event_map;
    listed = refl;
  };
}

unchanged :
    {D L : Type 0} {t : ℕ} (u v : World D L) (q r : Option Bool)
    → done q u ≡ done r v
    → IsStamped t u.reports v.reports
unchanged {D} {L} u v q r h l e =
    let same : u ≡ v = cc h in ([], subst (λ (z : World D L). z.reports ≡ some l) same e, tt)

module _ {D V L : Type 0} ⦃d : Double D⦄ (env : Env D V L) where
  Stays-set_current :
      (e : Option ℕ) (t : Option CreatureRef) → Stays (set_current {D = D} {L = L} e t)
  unfolding set_current
  Stays-set_current e t = search stay_rules

  Stays-run_body : (a : ℕ) (b : Body) → Stays (run_body {L = L} env a b)
  unfolding run_body
  Stays-run_body a (of_spell s) = Stays-run_spell_event env a
  Stays-run_body a (of_aura s) = Stays-run_aura_event env a

  Stays-dispatch_event : (a : ℕ) → Stays (dispatch_event {L = L} env a)
  unfolding dispatch_event
  Stays-dispatch_event a = search (steady_rules, Stays-set_current, Stays-run_body) depth 20

  Stays-dispatch_first : (l : List ℕ) → Stays (dispatch_first {L = L} env l)
  unfolding dispatch_first
  Stays-dispatch_first [] = search stay_rules
  Stays-dispatch_first (a ∷ rest) = Stays-dispatch_event a

  pub Stays-process_entry : (t : ℕ) (l : List ℕ) → Stays (process_entry {L = L} env t l)
  unfolding process_entry
  Stays-process_entry t l = Stays-bind _ _ (Stays-dispatch_first l) λ u. Stays-pop_front t

  -- A call of `ProcessEvent` that ends with true, and so has run events, leaves the clock as it was.
  pub process_event-steady :
      (fuel next : ℕ) (w v : World D L)
      → process_event env fuel next w ≡ done (some true) v
      → v.system.game_time ≡ w.system.game_time
  unfolding process_event pure get modify ◌>>=◌
  process_event-steady zero next w v h = absurd (cc h)
  process_event-steady (suc fuel) next w v h = elim (option-inv (due w.system) _ _ w _ h) [
    | inl (e, g) ↦ absurd (cc g)
    | inr (x, e, g) ↦
        let go_on : ℕ × List ℕ → M (World D L) (Option Bool) = λ y. process_event env fuel next in
        let rest : Unit {0} → M (World D L) (Option Bool) =
          λ t. get >>= λ z. on_option (due z.system) (pure (some true)) go_on in
        let (t, u, p, q) = bind-inv (process_entry env x.0 x.1) rest w v (some true) g in
        let same = (subst (Shows w) p ((Stays-process_entry x.0 x.1).at w)).steady in
        elim (option-inv (due u.system) (pure (some true)) go_on u _ q) [
          | inl (n, k) ↦ end_at u v k ∙ same
          | inr (y, m, k) ↦ process_event-steady fuel next u v k ∙ same
        ]
  ]

  -- Every report that a call of `ProcessEvent` makes has the time of the clock, and is put before those
  -- that were there; none is removed or changed.
  pub process_event-IsStamped :
      (fuel next : ℕ) (w v : World D L) (r : Option Bool)
      → process_event env fuel next w ≡ done r v
      → IsStamped w.system.game_time w.reports v.reports
  unfolding process_event pure get modify ◌>>=◌
  process_event-IsStamped zero next w v r h = unchanged w v none r h
  process_event-IsStamped (suc fuel) next w v r h = elim (option-inv (due w.system) _ _ w _ h) [
    | inl (e, g) ↦ unchanged (set_system (λ s. advance s next) w) v (some false) r g
    | inr (x, e, g) ↦
        let go_on : ℕ × List ℕ → M (World D L) (Option Bool) = λ y. process_event env fuel next in
        let rest : Unit {0} → M (World D L) (Option Bool) =
          λ t. get >>= λ z. on_option (due z.system) (pure (some true)) go_on in
        let (t, u, p, q) = bind-inv (process_entry env x.0 x.1) rest w v r g in
        let grown = subst (Shows w) p ((Stays-process_entry x.0 x.1).at w) in
        IsStamped-trans grown.steady grown.stamped
          (elim (option-inv (due u.system) (pure (some true)) go_on u _ q) [
            | inl (n, k) ↦ unchanged u v (some true) r k
            | inr (y, m, k) ↦ process_event-IsStamped fuel next u v r k
          ])
  ]
