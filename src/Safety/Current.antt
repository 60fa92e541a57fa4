-- ===== src/Safety/Current.antt =====
-- The functions of `DPSCalc/LuaIntergration.cpp` that read or change the current event keep a frame.
use dpscalclua.Base.{ℕ, ◌≡◌, refl, sym, subst, List, Option, none, some, inl, inr, Option-cases}
use dpscalclua.Double.{Double}
use dpscalclua.Global.{CombatStat, cs_damage, cs_crit_percentage, cs_hit_percentage, cs_cast_time}
use dpscalclua.Map.{find}
use dpscalclua.Event.{Event, Body, of_spell, of_aura, SpellPart, AuraPart}
use dpscalclua.Store.{World, M, get, on_option, ◌>>=◌}
use dpscalclua.Script.{Env}
use dpscalclua.Heap.Laws.{bind-done, read_event-done, write_event-done}
use dpscalclua.Heap.{read_event, write_event}
use dpscalclua.Combat.Chance.{
  event_crit_chance, event_hit_chance, event_cast_time, event_crit_chance_of, event_hit_chance_of,
  event_cast_time_of,
}
use dpscalclua.Combat.Damage.{
  event_damage, event_damage_of, aura_power_factor, spell_get_damage, aura_get_damage,
}
use dpscalclua.Lua.EventStats.{
  StatChange, changed, out_of_bounds, too_large, refused, apply_change, change_current_event,
  get_event_stats, lua_event_add_stats, lua_event_get_stats,
}
use dpscalclua.Safety.Meets.{Holds, Keeps}
use dpscalclua.Safety.Core.{Core, core, On, IsFrame, frame_rules}
use dpscalclua.Safety.Steps.{heap_rules}
use dpscalclua.Safety.Functions.{script_rules, Keeps-need_integer}

module _ {D V L : Type 0} ⦃d : Double D⦄ (env : Env D V L) {P : Core D → Type 0} where
  pub Keeps-spell_get_damage :
      (e : Event D) (s : SpellPart) → Keeps (On P) (spell_get_damage {L = L} env e s)
  unfolding spell_get_damage
  Keeps-spell_get_damage e s = search heap_rules depth 12

  pub Keeps-aura_get_damage :
      (e : Event D) (a : AuraPart) → Keeps (On P) (aura_get_damage {L = L} env e a)
  unfolding aura_get_damage aura_power_factor
  Keeps-aura_get_damage e a = search heap_rules depth 20

  Keeps-event_damage_of : (e : Event D) (b : Body) → Keeps (On P) (event_damage_of {L = L} env e b)
  unfolding event_damage_of
  Keeps-event_damage_of e (of_spell s) = Keeps-spell_get_damage e s
  Keeps-event_damage_of e (of_aura a) = Keeps-aura_get_damage e a

  Keeps-event_crit_chance_of :
      (e : Event D) (b : Body) → Keeps (On P) (event_crit_chance_of {L = L} e b)
  unfolding event_crit_chance_of
  Keeps-event_crit_chance_of e (of_spell s) = search heap_rules
  Keeps-event_crit_chance_of e (of_aura a) = search heap_rules

  Keeps-event_hit_chance_of :
      (e : Event D) (b : Body) → Keeps (On P) (event_hit_chance_of {L = L} e b)
  unfolding event_hit_chance_of
  Keeps-event_hit_chance_of e (of_spell s) = search heap_rules
  Keeps-event_hit_chance_of e (of_aura a) = search heap_rules

  Keeps-event_cast_time_of :
      (e : Event D) (b : Body) → Keeps (On P) (event_cast_time_of {L = L} e b)
  unfolding event_cast_time_of
  Keeps-event_cast_time_of e (of_spell s) = search heap_rules
  Keeps-event_cast_time_of e (of_aura a) = search heap_rules

  Keeps-get_event_stats :
      (k : CombatStat) (e : Event D) → Keeps (On P) (get_event_stats {L = L} env k e)
  unfolding get_event_stats event_damage event_crit_chance event_hit_chance event_cast_time
  Keeps-get_event_stats cs_damage e = search (heap_rules, Keeps-event_damage_of)
  Keeps-get_event_stats cs_crit_percentage e = search (heap_rules, Keeps-event_crit_chance_of)
  Keeps-get_event_stats cs_hit_percentage e = search (heap_rules, Keeps-event_hit_chance_of)
  Keeps-get_event_stats cs_cast_time e = search (heap_rules, Keeps-event_cast_time_of)
  Keeps-get_event_stats _ e = search heap_rules

module _ {D V L : Type 0} ⦃d : Double D⦄ (env : Env D V L) {P : Core D → Type 0}
    (F : IsFrame P) where
  -- The current event is there to be read, and its new additions keep the frame.
  read_current :
      {A : Type 0} (f : Event D → M (World D L) A) (a : ℕ) (w : World D L)
      → On P w
      → w.current_event ≡ some a
      → ((e : Event D) → find a w.events ≡ some e → Holds (λ _. On P) (f e w))
      → Holds (λ _. On P) ((read_event a >>= f) w)
  read_current f a w h c k = elim (Option-cases (find a w.events)) [
    | inl e ↦ absurd (F.reads (core w) a h.holds c e)
    | inr (e, found) ↦
        subst (Holds _) (sym (bind-done (read_event a) f w (read_event-done a w e found)))
          (k e found)
  ]

  write_current :
      (a : ℕ) (e : Event D) (x : StatChange D) (w : World D L)
      → On P w
      → w.current_event ≡ some a
      → find a w.events ≡ some e
      → Holds (λ _. On P) (apply_change e x w)
  unfolding apply_change ◌>>=◌
  write_current a e (changed y) w h c found =
      let kept = F.rewrites (core w) a e y h.holds c found in
      elim (Option-cases (find e.addr w.events)) [
        | inl missing ↦ absurd (kept.0 missing)
        | inr (old, there) ↦
            let e' = record e { extra = y } in
            subst (Holds _) (sym (bind-done (write_event e') _ w (write_event-done e' old w there)))
              (record { holds = kept.1 })
      ]
  write_current a e out_of_bounds w h c found = tt
  write_current a e too_large w h c found = tt
  write_current a e refused w h c found = h

  -- `if (!GetCurrentEvent()) ... else ...`.
  Keeps-at_current :
      {A : Type 0} (m : M (World D L) A) (f : ℕ → Event D → M (World D L) A)
      → Keeps (On P) m
      → ((a : ℕ) (e : Event D) (w : World D L)
          → On P w
          → w.current_event ≡ some a
          → find a w.events ≡ some e
          → Holds (λ _. On P) (f a e w))
      → Keeps (On P) (get >>= λ w. on_option w.current_event m (λ a. read_event a >>= f a))
  unfolding ◌>>=◌
  Keeps-at_current m f km kf = record { at = λ w h. by_pointer w h w.current_event refl }
    where
      by_pointer :
          (w : World D _)
          → On P w
          → (o : Option ℕ) → w.current_event ≡ o
          → Holds (λ _. On P) (on_option o m (λ a. read_event a >>= f a) w)
      by_pointer w h none c = km.at w h
      by_pointer w h (some a) c = read_current (f a) a w h c λ e found. kf a e w h c found

  Keeps-change_current_event :
      (k : ℕ) (v : D) (i : ℕ) → Keeps (On P) (change_current_event {L = L} k v i)
  unfolding change_current_event
  Keeps-change_current_event k v i =
      Keeps-at_current _ _ (search frame_rules) λ a e w h c found. write_current a e _ w h c found

  pub Keeps-lua_event_add_stats : (vs : List V) → Keeps (On P) (lua_event_add_stats {L = L} env vs)
  unfolding lua_event_add_stats
  Keeps-lua_event_add_stats vs = search (script_rules, Keeps-change_current_event) depth 12

  pub Keeps-lua_event_get_stats : (vs : List V) → Keeps (On P) (lua_event_get_stats {L = L} env vs)
  unfolding lua_event_get_stats
  Keeps-lua_event_get_stats vs = Keeps-need_integer env.api vs 1 _ λ k.
      Keeps-at_current _ _ (search frame_rules)
        λ a e w h c found. (Keeps-get_event_stats _ _ e).at w h
