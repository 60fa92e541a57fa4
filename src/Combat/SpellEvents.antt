-- ===== src/Combat/SpellEvents.antt =====
-- `CSpellEvent::operator()`, `PreAction` and `PostAction`. The result of `run_spell_event` says whether
-- the event is to be deleted.
use Prim.Native.Nat.{bit_and, bit_or, bit_xor}
use dpscalclua.Base.{
  ℕ, zero, suc, ◌+◌, Bool, true, false, not, ◌||◌, Option, none, some, add32, ltb, ◌==◌,
  if◌then◌else◌,
}
use dpscalclua.Double.{Double}
use dpscalclua.Global.{
  event_spell_cast, event_spell_channel, event_pre, event_post, spell_damage,
  spell_aura_application, spell_channel, has_flag,
}
use dpscalclua.Spell.{Spell}
use dpscalclua.Creature.{get_aura}
use dpscalclua.Player.{
  get_global_cooldown_time, is_idle, set_spell_cooldown, set_global_cooldown_time,
  set_casting_spell,
}
use dpscalclua.Event.{
  Event, SpellPart, Body, of_spell, of_aura, new_spell_event, new_aura_event, new_removal_event,
  map_aura,
}
use dpscalclua.Store.{
  on_option, World, M, bad_event, null_pointer, pure, fail, get, or_fault, when, ◌>>=◌, ◌>>◌,
}
use dpscalclua.Script.{
  Env, pre_casting_spell, post_casting_spell, pre_spell_channel, post_spell_channel,
}
use dpscalclua.Heap.{
  read_event, write_event, spawn, read_aura, write_aura, enqueue, the_spell, the_aura,
  update_player, draw,
}
use dpscalclua.Lua.Dispatch.{call_lua_function}
use dpscalclua.Combat.Chance.{base_crit_chance, base_hit_chance, spell_event_cast_time}
use dpscalclua.Combat.Damage.{spell_get_damage}
use dpscalclua.Combat.Report.{report_event}

-- `SetApplySpell`.
unfoldable pub apply_spell : {D : Type 0} → ℕ → Event D → Event D
apply_spell spell e = record e { body = map_aura (λ y. record y { spell = some spell }) e.body }

-- Equality of two pointers to events, NULL included.
unfoldable pub same_pointer : Option ℕ → Option ℕ → Bool
same_pointer none none = true
same_pointer (some a) (some b) = a == b
same_pointer none (some b) = false
same_pointer (some a) none = false

module _ {D L : Type 0} where
  unfoldable pub spell_part_of : Body → M (World D L) SpellPart
  spell_part_of (of_spell s) = pure s
  spell_part_of (of_aura a) = fail bad_event

  -- The event with the members of `CSpellEvent`.
  unfoldable pub read_spell_event : ℕ → M (World D L) (Event D × SpellPart)
  unfolding spell_part_of
  read_spell_event this = do e ← read_event this; part ← spell_part_of e.body; pure (e, part)

  unfoldable pub set_spell_part : Event D → SpellPart → M (World D L) (Unit {0})
  set_spell_part e part = write_event (record e { body = of_spell part })

  -- `Set_GlobalCooldownTime(GCDRecovery); Set_CastingSpell(NULL);`
  unfoldable pub end_cast : SpellPart → M (World D L) (Unit {0})
  end_cast part = do
    update_player (λ p. set_global_cooldown_time p part.gcd_recovery)
    update_player (λ p. set_casting_spell p none)

module _ {D V L : Type 0} ⦃d : Double D⦄ (env : Env D V L) where
  open d use {lit, add, sub, mul, div, less, less_eq, of_word, to_word}

  -- `(rand() % 1000) < Get_HitChance() * 1000`.
  unfoldable pub roll_hit : Event D → M (World D L) Bool
  roll_hit e = do
    roll ← draw env.rand 1000
    w ← get
    pure (less (of_word roll) (mul (base_hit_chance w.player e.extra) (lit 1000 0)))

  -- `(rand() % 1000) <= Get_CritChance() * 1000`.
  unfoldable pub roll_crit : Event D → M (World D L) Bool
  roll_crit e = do
    roll ← draw env.rand 1000
    w ← get
    pure (less_eq (of_word roll) (mul (base_crit_chance w.player e.extra) (lit 1000 0)))

  -- The loop of `PreAction` from `i` on, with `left` rounds to go.
  unfoldable pub channel_loop : (left i this : ℕ) → Event D → Spell D → M (World D L) (Unit {0})
  channel_loop zero i this e s = pure tt
  channel_loop (suc left) i this e s = do
    w ← get
    let length = spell_event_cast_time w.player e s
    let due = sub (mul (div length (of_word s.channel_ticks)) (of_word i)) (lit 1 0)
    let init = λ (a : ℕ). new_spell_event (env.junk_word a) a s.id e.target
    let kind : ℕ = bit_or event_spell_channel event_pre
    spawn (λ a. record (init a) { event_type = kind; parent = some this }) (to_word due)
    channel_loop left (i + 1) this e s

  -- `PreAction` of a channelled spell, after `GCDRecovery` is set. True is the result 0.
  unfoldable pub start_channel : ℕ → Event D → SpellPart → Spell D → M (World D L) Bool
  start_channel this e part s = do
    hit ← roll_hit e
    set_spell_part e (record part { hit = hit })
    if hit
        then (do channel_loop s.channel_ticks 1 this e s; pure true)
        else (do end_cast part; pure false)

  -- `PreAction` of the cast itself.
  unfoldable pub pre_cast : ℕ → ℕ → M (World D L) Bool
  pre_cast this spell = do
    s0 ← the_spell spell
    call_lua_function env pre_casting_spell s0.id
    update_player (λ p. set_casting_spell p (some this))
    (e, part) ← read_spell_event this
    s ← the_spell spell
    w ← get
    let gcd = to_word (add (of_word w.system.game_time) (get_global_cooldown_time w.player))
    let part' = record part { gcd_recovery = gcd }
    set_spell_part e part'
    if has_flag s.spell_type spell_channel then start_channel this e part' s else pure true

  -- `PreAction` of a tick of a channelled spell.
  unfoldable pub pre_channel : ℕ → Event D → M (World D L) Bool
  pre_channel spell e = do
    s ← the_spell spell
    w ← get
    when (same_pointer w.player.casting_spell e.parent)
        (call_lua_function env pre_spell_channel s.id)
    pure true

  -- The forced removal of the player's own copy of the aura that the spell applies.
  unfoldable pub force_removal : ℕ → Event D → (aura : ℕ) → M (World D L) (Unit {0})
  force_removal spell e aura = do
    template ← the_aura aura
    w ← get
    on_option (get_aura w.player.auras template.id) (pure tt) λ addr. do
      x ← read_aura addr
      write_aura (record x { fade_time = 1 })
      let init = λ (a : ℕ). new_removal_event (env.junk_word a) a aura e.target x.guid
      spawn (λ a. apply_spell spell (init a)) 0

  -- "and gain aura" of `PostAction`.
  unfoldable pub gain_aura : ℕ → Event D → Spell D → M (World D L) (Unit {0})
  gain_aura spell e s = do
    aura ← or_fault null_pointer s.aura_to_apply
    force_removal spell e aura
    let init = λ (a : ℕ). new_aura_event (env.junk_word a) a aura e.target 1 s.aura_fade_time false
    spawn (λ a. apply_spell spell (init a)) 0

  -- The end of a cast: the script, the cooldown, the global cooldown.
  unfoldable pub finish_cast : ℕ → Spell D → M (World D L) (Unit {0})
  finish_cast this s = do
    call_lua_function env post_casting_spell s.id
    (e, part) ← read_spell_event this
    w ← get
    let time = add32 (add32 w.system.game_time s.cooldown) e.extra.cooldown
    when (ltb 0 s.cooldown) (update_player (λ p. set_spell_cooldown p s.id time))
    end_cast part

  -- `PostAction` after a hit.
  unfoldable pub post_hit : ℕ → ℕ → Event D → SpellPart → M (World D L) (Unit {0})
  post_hit this spell e part = do
    let is_cast = has_flag e.event_type event_spell_cast
    let is_channel = has_flag e.event_type event_spell_channel
    s ← the_spell spell
    when (ltb 0 (bit_and s.spell_type spell_damage) || is_channel)
        (do crit ← roll_crit e; set_spell_part e (record part { crit = crit }))
    when (ltb 0 (bit_and s.spell_type spell_aura_application)) (gain_aura spell e s)
    if is_cast then finish_cast this s else call_lua_function env post_spell_channel s.id
    (e', part') ← read_spell_event this
    t ← the_spell spell
    when (not is_cast || not (ltb 0 (bit_and t.spell_type spell_channel))) (do
      damage ← spell_get_damage env e' part'
      set_spell_part e' (record part' { calculated_damage = damage }))
    (e'', part'') ← read_spell_event this
    report_event t.name e''.extra part''.calculated_damage part''.crit

  unfoldable pub post_action : ℕ → M (World D L) (Unit {0})
  post_action this = do
    (e, part) ← read_spell_event this
    hit ← roll_hit e
    let part' = record part { hit = hit }
    set_spell_part e part'
    if hit
        then post_hit this part.spell e part'
        else when (has_flag e.event_type event_spell_cast) (end_cast part')

  -- `m_EventType ^= EVENT_PRE; m_EventType ^= EVENT_POST;` and what follows.
  unfoldable pub after_pre : ℕ → (started : Bool) → M (World D L) Bool
  after_pre this started = do
    (e0, part) ← read_spell_event this
    let e = record e0 { event_type = bit_xor (bit_xor e0.event_type event_pre) event_post }
    write_event e
    s ← the_spell part.spell
    w ← get
    if has_flag e.event_type event_spell_cast
        then (if started
            then (do enqueue this (to_word (spell_event_cast_time w.player e s)); pure false)
            else pure true)
        else (do enqueue this 0; pure false)

  -- The branch of `operator()` for EVENT_PRE.
  unfoldable pub run_pre : ℕ → Event D → SpellPart → M (World D L) Bool
  run_pre this e part = do
    w ← get
    let cast = has_flag e.event_type event_spell_cast
    let idle = is_idle w.player w.system.game_time
    let channelling = same_pointer w.player.casting_spell e.parent
    if (if cast then not idle else not channelling) then pure true else (do
      started ← if cast then pre_cast this part.spell else pre_channel part.spell e
      after_pre this started)

  -- The branch for EVENT_POST.
  unfoldable pub run_post : ℕ → Event D → M (World D L) Bool
  run_post this e = do
    w ← get
    let cast = has_flag e.event_type event_spell_cast
    let owner = if cast then some this else e.parent
    when (same_pointer w.player.casting_spell owner) (post_action this)
    pure true

  -- `CSpellEvent::operator()`.
  unfoldable pub run_spell_event : ℕ → M (World D L) Bool
  run_spell_event this = do
    (e, part) ← read_spell_event this
    if has_flag e.event_type event_pre
        then run_pre this e part
        else (if has_flag e.event_type event_post then run_post this e else pure false)
