-- ===== src/Lua/EventStats.antt =====
-- `EventStats`, `L_EventAddStats` and `L_EventGetStats` of `DPSCalc/LuaIntergration.cpp`.
use dpscalclua.Base.{ℕ, List, Option, none, some, add_int, leb, if◌then◌else◌}
use dpscalclua.Double.{Double}
use dpscalclua.Global.{
  CombatStat, cs_damage, cs_damage_percentage, cs_crit_percentage, cs_hit_percentage,
  cs_crit_rating, cs_hit_rating, cs_haste_rating, cs_cast_time, cs_cooldown, cs_haste_percentage,
  cs_other, combat_stat_of, crit_percentage, hit_percentage,
}
use dpscalclua.Player.{percentage_to_rating}
use dpscalclua.Event.{Event, Additionals, add_damage_percentage}
use dpscalclua.Store.{on_option, World, M, bad_index, overflow, get, or_fault, ◌>>=◌, ◌>>◌}
use dpscalclua.Script.{Env, Reply, push_number}
use dpscalclua.Heap.{read_event, write_event}
use dpscalclua.Combat.Chance.{event_crit_chance, event_hit_chance, event_cast_time}
use dpscalclua.Combat.Damage.{event_damage}
use dpscalclua.Lua.Args.{need_number, need_integer, optional_integer, lua_error, push, push_nothing}

-- The effect of a statistic on the additions of an event.
pub data StatChange (D : Type 0) : Type 0 where
  changed : Additionals D → StatChange D
  out_of_bounds : StatChange D
  too_large : StatChange D
  refused : StatChange D

module _ {D : Type 0} ⦃d : Double D⦄ where
  abbrev change_of : Option (Additionals D) → StatChange D
  change_of none = out_of_bounds
  change_of (some y) = changed y

  abbrev added_to : (ℕ → Additionals D) → Option ℕ → StatChange D
  added_to f none = too_large
  added_to f (some n) = changed (f n)

  -- `EventStats` with `isAdd`. Each addition is one of two `int32`.
  unfoldable pub add_event_stats : CombatStat → Additionals D → D → ℕ → StatChange D
  add_event_stats cs_damage x v i =
      added_to (λ n. record x { damage = n }) (add_int x.damage (d.to_int v))
  add_event_stats cs_damage_percentage x v i = change_of (add_damage_percentage x v i)
  add_event_stats cs_crit_percentage x v i =
      added_to (λ n. record x { crit_rating = n })
        (add_int x.crit_rating (percentage_to_rating v crit_percentage))
  add_event_stats cs_hit_percentage x v i =
      added_to (λ n. record x { hit_rating = n })
        (add_int x.hit_rating (percentage_to_rating v hit_percentage))
  add_event_stats cs_crit_rating x v i =
      added_to (λ n. record x { crit_rating = n }) (add_int x.crit_rating (d.to_int v))
  add_event_stats cs_hit_rating x v i =
      added_to (λ n. record x { hit_rating = n }) (add_int x.hit_rating (d.to_int v))
  add_event_stats cs_haste_rating x v i =
      added_to (λ n. record x { haste_rating = n }) (add_int x.haste_rating (d.to_int v))
  add_event_stats cs_cast_time x v i =
      added_to (λ n. record x { cast_time = n }) (add_int x.cast_time (d.to_int v))
  add_event_stats cs_cooldown x v i =
      added_to (λ n. record x { cooldown = n }) (add_int x.cooldown (d.to_int v))
  add_event_stats cs_haste_percentage x v i = changed x
  add_event_stats cs_other x v i = refused

  abbrev invalid_stat : {L : Type 0} → M (World D L) (Reply D)
  invalid_stat = lua_error "Invaild param #1, COMBAT_STATS expected"

  unfoldable pub apply_change : {L : Type 0} → Event D → StatChange D → M (World D L) (Reply D)
  apply_change e (changed y) = do write_event (record e { extra = y }); push_nothing
  apply_change e out_of_bounds = or_fault bad_index none
  apply_change e too_large = or_fault overflow none
  apply_change e refused = invalid_stat

  unfoldable pub change_current_event : {L : Type 0} → ℕ → D → ℕ → M (World D L) (Reply D)
  unfolding apply_change
  change_current_event stat v i = do
    w ← get
    on_option w.current_event (lua_error "Not in a event")
        λ a. do e ← read_event a; apply_change e (add_event_stats (combat_stat_of stat) e.extra v i)

module _ {D V L : Type 0} ⦃d : Double D⦄ (env : Env D V L) where
  unfoldable pub lua_event_add_stats : List V → M (World D L) (Reply D)
  lua_event_add_stats vs = need_integer env.api vs 1 λ stat. need_number env.api vs 2 λ v.
      let i = optional_integer env.api vs 3 0 in
      if leb 16 i then lua_error "Invaild Index" else change_current_event stat v i

  -- `EventStats` without `isAdd`.
  unfoldable pub get_event_stats : CombatStat → Event D → M (World D L) (Reply D)
  get_event_stats cs_damage e = do n ← event_damage env e; push (push_number (d.of_word n))
  get_event_stats cs_crit_percentage e = do x ← event_crit_chance e; push (push_number x)
  get_event_stats cs_hit_percentage e = do x ← event_hit_chance e; push (push_number x)
  get_event_stats cs_cast_time e = do x ← event_cast_time e; push (push_number x)
  get_event_stats _ e = invalid_stat

  unfoldable pub lua_event_get_stats : List V → M (World D L) (Reply D)
  unfolding get_event_stats
  lua_event_get_stats vs = need_integer env.api vs 1 λ stat. do
    w ← get
    on_option w.current_event (lua_error "Not in a event")
        λ a. do e ← read_event a; get_event_stats (combat_stat_of stat) e
