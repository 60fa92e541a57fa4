-- ===== src/Combat/AuraEvents.antt =====
-- `CAuraEvent::operator()`: the application, the removal and the periodic event of an aura. The result
-- says whether the event is to be deleted. The event is read again after each call of a script, which
-- may have changed its additions.
use dpscalclua.Base.{
  ℕ, ◌/◌, Bool, true, false, ◌&&◌, Option, none, some, add32, sub32, ltb, leb, ◌==◌, if◌then◌else◌,
}
use dpscalclua.Double.{Double}
use dpscalclua.Global.{
  event_aura_application, event_aura_removal, event_aura_periodic_event, has_flag,
}
use dpscalclua.Aura.{Aura, copy_aura}
use dpscalclua.Creature.{get_aura, apply_aura, remove_aura}
use dpscalclua.Player.Stats.{get_stat}
use dpscalclua.Event.{
  Event, AuraPart, Body, of_spell, of_aura, new_aura_event, map_aura, reset_additionals,
}
use dpscalclua.Store.{
  on_option, World, M, bad_event, division_by_zero, pure, fail, get, when, ◌>>=◌, ◌>>◌,
}
use dpscalclua.Script.{Env, aura_application, aura_fade, pre_periodic_event, post_periodic_event}
use dpscalclua.Heap.{
  read_event, write_event, spawn, read_aura, write_aura, new_heap_aura, delete_aura, unit_auras,
  set_unit_auras, enqueue, game_time, the_aura, draw,
}
use dpscalclua.Lua.Dispatch.{call_lua_function}
use dpscalclua.Combat.Chance.{base_crit_chance, cast_time_with_haste, aura_event_cast_time}
use dpscalclua.Combat.Damage.{aura_get_damage}
use dpscalclua.Combat.Report.{report_event}

-- `if (m_iFadeTimeTillNow) Set_iFadeTime(m_iFadeTimeTillNow + now + 1) else Set_iFadeTime(0)`.
abbrev pub fade_at : (fade now : ℕ) → ℕ
fade_at fade now = if ltb 0 fade then add32 (add32 fade now) 1 else 0

module _ {D L : Type 0} where
  unfoldable pub aura_part_of : Body → M (World D L) AuraPart
  aura_part_of (of_aura a) = pure a
  aura_part_of (of_spell s) = fail bad_event

  -- The event with the members of `CAuraEvent`.
  unfoldable pub read_aura_event : ℕ → M (World D L) (Event D × AuraPart)
  unfolding aura_part_of
  read_aura_event this = do e ← read_event this; part ← aura_part_of e.body; pure (e, part)

  unfoldable pub set_part : Event D → AuraPart → M (World D L) (Unit {0})
  set_part e part = write_event (record e { body = of_aura part })

module _ {D V L : Type 0} ⦃d : Double D⦄ (env : Env D V L) where
  -- Step 1 of `AuraApplication`: the target has the aura.
  unfoldable pub refresh_aura : Event D → AuraPart → Aura D → (addr : ℕ) → M (World D L) (Unit {0})
  refresh_aura e part template addr = do
    x ← read_aura addr
    write_aura (record x { ticks = add32 x.ticks part.add_stacks })
    w ← get
    y ← read_aura addr
    when template.is_periodic
        (write_aura (record y { spell_power = get_stat w.player.spell_power }))
    when part.set_fade_time (do
      let hasted = cast_time_with_haste w.player e.extra part.fade_time_till_now
      let fade = if template.haste_enabled then hasted else part.fade_time_till_now
      set_part e (record part { fade_time_till_now = fade })
      z ← read_aura addr
      write_aura (record z { fade_time = fade_at fade w.system.game_time }))

  -- The fade time of a new aura: as many whole periods as before, of the hasted length.
  unfoldable pub new_fade_time : Event D → AuraPart → Aura D → M (World D L) ℕ
  new_fade_time e part template =
      if template.haste_enabled && ltb 0 part.fade_time_till_now
      then (if template.periodic_event_time == 0 then fail division_by_zero else (do
        w ← get
        let period = aura_event_cast_time w.player e template
        let count = part.fade_time_till_now / template.periodic_event_time
        pure (d.to_word (d.mul period (d.of_word count)))))
      else pure part.fade_time_till_now

  -- `new CAuraEvent(m_pAura, m_thePlayer, m_theTarget)` with the members that `AuraApplication` sets.
  unfoldable pub follow_up :
      Event D → AuraPart → (kind delay : ℕ) → (AuraPart → AuraPart) → M (World D L) (Unit {0})
  follow_up e part kind delay set =
      let init = λ (a : ℕ). new_aura_event (env.junk_word a) a part.aura e.target 1 0 false in
      spawn (λ a. record (init a) { event_type = kind; body = map_aura set (init a).body }) delay

  -- Steps 2 and 3: the new aura, its removal and its first periodic event.
  unfoldable pub apply_new_aura : Event D → AuraPart → Aura D → M (World D L) (Unit {0})
  apply_new_aura e part template = do
    addr ← new_heap_aura (λ a guid. copy_aura (env.junk_aura a) a guid template)
    x ← read_aura addr
    fade ← new_fade_time e part template
    set_part e (record part { fade_time_till_now = fade })
    w ← get
    let y = record x { ticks = part.add_stacks; fade_time = fade_at fade w.system.game_time }
    write_aura y
    m ← unit_auras e.target
    set_unit_auras e.target (apply_aura m y.id addr).0
    when (ltb 0 fade) (
        follow_up e part event_aura_removal (add32 fade 1)
          (λ a. record a { spell = part.spell; guid = y.guid }))
    when template.is_periodic (do
      v ← get
      let time = d.to_word (aura_event_cast_time v.player e template)
      follow_up e part event_aura_periodic_event time
          (λ a. record a { spell = part.spell; guid = y.guid; periodic_time = time })
      write_aura (record y { spell_power = get_stat v.player.spell_power }))

  unfoldable pub run_application : ℕ → M (World D L) Bool
  run_application this = do
    (e0, part0) ← read_aura_event this
    called ← the_aura part0.aura
    call_lua_function env aura_application called.id
    (e, part) ← read_aura_event this
    template ← the_aura part.aura
    m ← unit_auras e.target
    on_option (get_aura m template.id) (do apply_new_aura e part template; pure true)
        λ addr. do refresh_aura e part template addr; pure true

  -- The check of `AuraRemoval` and `AuraPeriodic`: the address of the aura if it is still the same.
  unfoldable pub same_aura : Event D → AuraPart → Aura D → M (World D L) (Option ℕ)
  same_aura e part template = do
    m ← unit_auras e.target
    on_option (get_aura m template.id) (pure none)
        λ addr. do x ← read_aura addr; pure (if x.guid == part.guid then some addr else none)

  -- The removal itself, or its delay to the fade time.
  unfoldable pub remove_when_due : ℕ → Event D → Aura D → (addr : ℕ) → M (World D L) Bool
  remove_when_due this e template addr = do
    x ← read_aura addr
    now ← game_time
    if ltb now x.fade_time then (do enqueue this (sub32 x.fade_time now); pure false) else (do
      call_lua_function env aura_fade template.id
      m ← unit_auras e.target
      set_unit_auras e.target (remove_aura m addr).0
      delete_aura addr
      pure true)

  unfoldable pub run_removal : ℕ → M (World D L) Bool
  run_removal this = do
    (e, part) ← read_aura_event this
    template ← the_aura part.aura
    found ← same_aura e part template
    on_option found (pure true) λ addr. remove_when_due this e template addr

  -- The tick itself: the crit, the damage and the report.
  unfoldable pub tick : ℕ → Aura D → M (World D L) (Unit {0})
  tick this template = do
    (e, part) ← read_aura_event this
    roll ← draw env.rand 1000
    w ← get
    let chance = base_crit_chance w.player e.extra
    let crit = d.less (d.of_word roll) (d.mul chance (d.lit 1000 0))
    damage ← aura_get_damage env e part
    set_part e (record part { crit = crit; calculated_damage = damage })
    report_event template.name e.extra damage crit

  -- The end of `AuraPeriodic`: the additions are reset, and the event comes again or is over.
  unfoldable pub next_tick : ℕ → (addr : ℕ) → M (World D L) Bool
  next_tick this addr = do
    (e, part) ← read_aura_event this
    set_part (record e { extra = reset_additionals }) (record part { calculated_damage = 0 })
    now ← game_time
    x ← read_aura addr
    if leb (add32 now part.periodic_time) x.fade_time
        then (do enqueue this part.periodic_time; pure false)
        else pure true

  unfoldable pub run_periodic : ℕ → M (World D L) Bool
  run_periodic this = do
    (e, part) ← read_aura_event this
    template ← the_aura part.aura
    found ← same_aura e part template
    on_option found (pure true) λ addr. do
      call_lua_function env pre_periodic_event template.id
      tick this template
      call_lua_function env post_periodic_event template.id
      next_tick this addr

  -- `CAuraEvent::operator()`.
  unfoldable pub run_aura_event : ℕ → M (World D L) Bool
  run_aura_event this = do
    e ← read_event this
    if has_flag e.event_type event_aura_application
        then run_application this
        else (if has_flag e.event_type event_aura_removal
            then run_removal this
            else (if has_flag e.event_type event_aura_periodic_event
                then run_periodic this
                else pure true))
