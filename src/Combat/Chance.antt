-- ===== src/Combat/Chance.antt =====
-- `Get_CritChance`, `Get_HitChance` and `GetCastTime` of `CEvent`, `CSpellEvent` and `CAuraEvent`.
use dpscalclua.Base.{ℕ, not, add32, ltb, if◌then◌else◌}
use Prim.Native.Nat.{bit_and}
use dpscalclua.Double.{Double, zero_point, one_point}
use dpscalclua.Global.{crit_percentage, hit_percentage, haste_percentage, event_post, has_flag}
use dpscalclua.Aura.{Aura}
use dpscalclua.Spell.{Spell}
use dpscalclua.Player.{
  Player, get_crit_percentage, get_hit_percentage, get_haste_percentage, rating_to_percentage,
}
use dpscalclua.Event.{Event, Additionals, SpellPart, AuraPart, Body, of_spell, of_aura}
use dpscalclua.Store.{World, M, pure, get, ◌>>=◌}
use dpscalclua.Heap.{the_spell, the_aura}

module _ {D : Type 0} ⦃d : Double D⦄ where
  open d use {add, div, less, of_word, to_word}

  -- `CEvent::Get_CritChance`.
  unfoldable pub base_crit_chance : Player D → Additionals D → D
  base_crit_chance p x =
      add (get_crit_percentage p) (rating_to_percentage x.crit_rating crit_percentage)

  -- `CEvent::Get_HitChance`.
  unfoldable pub base_hit_chance : Player D → Additionals D → D
  base_hit_chance p x =
      let ideal = add (get_hit_percentage p) (rating_to_percentage x.hit_rating hit_percentage) in
      if less one_point ideal then one_point else ideal

  -- `CEvent::GetCastTimeWithHaste`.
  unfoldable pub cast_time_with_haste : Player D → Additionals D → ℕ → ℕ
  cast_time_with_haste p x t =
      let haste =
        add (get_haste_percentage p) (rating_to_percentage x.haste_rating haste_percentage) in
      to_word (div (div (of_word t) (add one_point haste)) (add one_point x.haste_percentage))

  unfoldable pub spell_crit_chance : Player D → Event D → SpellPart → D
  unfolding base_crit_chance
  spell_crit_chance p e s =
      if has_flag e.event_type event_post
      then (if s.crit then one_point else zero_point)
      else base_crit_chance p e.extra

  unfoldable pub spell_hit_chance : Player D → Event D → SpellPart → D
  unfolding base_hit_chance
  spell_hit_chance p e s =
      if has_flag e.event_type event_post
      then (if s.hit then one_point else zero_point)
      else base_hit_chance p e.extra

  unfoldable pub spell_event_cast_time : Player D → Event D → Spell D → D
  unfolding cast_time_with_haste
  spell_event_cast_time p e s =
      of_word (add32 (cast_time_with_haste p e.extra s.cast_time) e.extra.cast_time)

  -- `CAuraEvent::Get_CritChance`, with its test `m_EventType & EVENT_POST` for "not zero".
  unfoldable pub aura_crit_chance : Player D → Event D → AuraPart → Aura D → D
  unfolding base_crit_chance
  aura_crit_chance p e a template =
      if not template.crit_enabled
      then (if ltb 0 (bit_and e.event_type event_post)
          then (if a.crit then one_point else zero_point)
          else base_crit_chance p e.extra)
      else zero_point

  unfoldable pub aura_event_cast_time : Player D → Event D → Aura D → D
  unfolding cast_time_with_haste
  aura_event_cast_time p e template =
      if not template.haste_enabled
      then of_word template.periodic_event_time
      else of_word (cast_time_with_haste p e.extra template.periodic_event_time)

-- The virtual calls.
module _ {D L : Type 0} ⦃d : Double D⦄ where
  unfoldable pub event_crit_chance_of : Event D → Body → M (World D L) D
  event_crit_chance_of e (of_spell s) = do w ← get; pure (spell_crit_chance w.player e s)
  event_crit_chance_of e (of_aura a) = do
    template ← the_aura a.aura
    w ← get
    pure (aura_crit_chance w.player e a template)

  unfoldable pub event_crit_chance : Event D → M (World D L) D
  unfolding event_crit_chance_of
  event_crit_chance e = event_crit_chance_of e e.body

  unfoldable pub event_hit_chance_of : Event D → Body → M (World D L) D
  event_hit_chance_of e (of_spell s) = do w ← get; pure (spell_hit_chance w.player e s)
  event_hit_chance_of e (of_aura a) = pure one_point

  unfoldable pub event_hit_chance : Event D → M (World D L) D
  unfolding event_hit_chance_of
  event_hit_chance e = event_hit_chance_of e e.body

  unfoldable pub event_cast_time_of : Event D → Body → M (World D L) D
  event_cast_time_of e (of_spell s) = do
    spell ← the_spell s.spell
    w ← get
    pure (spell_event_cast_time w.player e spell)
  event_cast_time_of e (of_aura a) = do
    template ← the_aura a.aura
    w ← get
    pure (aura_event_cast_time w.player e template)

  unfoldable pub event_cast_time : Event D → M (World D L) D
  unfolding event_cast_time_of
  event_cast_time e = event_cast_time_of e e.body
