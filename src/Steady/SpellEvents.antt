-- ===== src/Steady/SpellEvents.antt =====
-- `CSpellEvent::operator()`, `PreAction` and `PostAction` leave the clock alone.
use dpscalclua.Base.{ℕ, zero, suc, ◌+◌, Bool}
use dpscalclua.Double.{Double}
use dpscalclua.Spell.{Spell}
use dpscalclua.Event.{Event, SpellPart, Body, of_spell, of_aura}
use dpscalclua.Script.{Env}
use dpscalclua.Combat.SpellEvents.{
  spell_part_of, read_spell_event, set_spell_part, end_cast, roll_hit, roll_crit, channel_loop,
  start_channel, pre_cast, pre_channel, force_removal, gain_aura, finish_cast, post_hit,
  post_action, after_pre, run_pre, run_post, run_spell_event,
}
use dpscalclua.Steady.Rules.{Stays, Stays-bind, Stays-get, stay_rules}
use dpscalclua.Steady.Steps.{steady_rules, Stays-spawn}
use dpscalclua.Steady.Units.{Stays-spell_get_damage}
use dpscalclua.Steady.Routines.{Stays-call_lua_function}
use dpscalclua.Steady.AuraEvents.{Stays-report_event}

module _ {D L : Type 0} where
  Stays-spell_part_of : (b : Body) → Stays (spell_part_of {D = D} {L = L} b)
  unfolding spell_part_of
  Stays-spell_part_of (of_aura a) = search stay_rules
  Stays-spell_part_of (of_spell s) = search stay_rules

  Stays-read_spell_event : (this : ℕ) → Stays (read_spell_event {D = D} {L = L} this)
  unfolding read_spell_event
  Stays-read_spell_event this = search (steady_rules, Stays-spell_part_of) depth 30

  Stays-set_spell_part : (e : Event D) (a : SpellPart) → Stays (set_spell_part {D = D} {L = L} e a)
  unfolding set_spell_part
  Stays-set_spell_part e a = search (steady_rules) depth 30

  Stays-end_cast : (a : SpellPart) → Stays (end_cast {D = D} {L = L} a)
  unfolding end_cast
  Stays-end_cast a = search (steady_rules) depth 30

ruleset spell_steps = (
  steady_rules, Stays-read_spell_event, Stays-set_spell_part, Stays-end_cast,
  Stays-call_lua_function,
)

module _ {D V L : Type 0} ⦃d : Double D⦄ (env : Env D V L) where
  Stays-roll_hit : (e : Event D) → Stays (roll_hit {D = D} {L = L} env e)
  unfolding roll_hit
  Stays-roll_hit e = search spell_steps depth 30

  Stays-roll_crit : (e : Event D) → Stays (roll_crit {D = D} {L = L} env e)
  unfolding roll_crit
  Stays-roll_crit e = search spell_steps depth 30

  Stays-channel_loop :
      (left i this : ℕ) (e : Event D) (s : Spell D)
      → Stays (channel_loop {L = L} env left i this e s)
  unfolding channel_loop
  Stays-channel_loop zero i this e s = search stay_rules
  Stays-channel_loop (suc left) i this e s =
      Stays-bind _ _ Stays-get
        λ w. Stays-bind _ _ (Stays-spawn _ _) λ x. Stays-channel_loop left (i + 1) this e s

  Stays-start_channel :
      (this : ℕ) (e : Event D) (a : SpellPart) (s : Spell D)
      → Stays (start_channel {D = D} {L = L} env this e a s)
  unfolding start_channel
  Stays-start_channel this e a s = search (spell_steps, Stays-roll_hit, Stays-channel_loop) depth 30

  Stays-pre_cast : (this spell : ℕ) → Stays (pre_cast {D = D} {L = L} env this spell)
  unfolding pre_cast
  Stays-pre_cast this spell = search (spell_steps, Stays-start_channel) depth 30

  Stays-pre_channel : (spell : ℕ) (e : Event D) → Stays (pre_channel {D = D} {L = L} env spell e)
  unfolding pre_channel
  Stays-pre_channel spell e = search spell_steps depth 30

  Stays-force_removal :
      (spell : ℕ) (e : Event D) (aura : ℕ) → Stays (force_removal {D = D} {L = L} env spell e aura)
  unfolding force_removal
  Stays-force_removal spell e aura = search spell_steps depth 30

  Stays-gain_aura :
      (spell : ℕ) (e : Event D) (s : Spell D) → Stays (gain_aura {D = D} {L = L} env spell e s)
  unfolding gain_aura
  Stays-gain_aura spell e s = search (spell_steps, Stays-force_removal) depth 30

  Stays-finish_cast : (this : ℕ) (s : Spell D) → Stays (finish_cast {D = D} {L = L} env this s)
  unfolding finish_cast
  Stays-finish_cast this s = search spell_steps depth 30

  Stays-post_hit :
      (this spell : ℕ) (e : Event D) (a : SpellPart)
      → Stays (post_hit {D = D} {L = L} env this spell e a)
  unfolding post_hit
  Stays-post_hit this spell e a =
      search
        (
          spell_steps, Stays-roll_crit, Stays-gain_aura, Stays-finish_cast, Stays-spell_get_damage,
          Stays-report_event,
        )
        depth 40

  Stays-post_action : (this : ℕ) → Stays (post_action {D = D} {L = L} env this)
  unfolding post_action
  Stays-post_action this = search (spell_steps, Stays-roll_hit, Stays-post_hit) depth 30

  Stays-after_pre : (this : ℕ) (started : Bool) → Stays (after_pre {D = D} {L = L} env this started)
  unfolding after_pre
  Stays-after_pre this started = search spell_steps depth 30

  Stays-run_pre :
      (this : ℕ) (e : Event D) (a : SpellPart) → Stays (run_pre {D = D} {L = L} env this e a)
  unfolding run_pre
  Stays-run_pre this e a =
      search (spell_steps, Stays-pre_cast, Stays-pre_channel, Stays-after_pre) depth 30

  Stays-run_post : (this : ℕ) (e : Event D) → Stays (run_post {D = D} {L = L} env this e)
  unfolding run_post
  Stays-run_post this e = search (spell_steps, Stays-post_action) depth 30

  pub Stays-run_spell_event : (this : ℕ) → Stays (run_spell_event {D = D} {L = L} env this)
  unfolding run_spell_event
  Stays-run_spell_event this = search (spell_steps, Stays-run_pre, Stays-run_post) depth 30
