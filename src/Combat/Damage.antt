-- ===== src/Combat/Damage.antt =====
-- `CSpellEvent::Get_Damage` and `CAuraEvent::Get_Damage`.
use dpscalclua.Base.{
  ℕ, ◌/◌, Bool, true, false, not, ◌&&◌, Option, add32, sub32, ltb, ◌==◌, if◌then◌else◌,
}
use dpscalclua.Double.{Double, zero_point, one_point}
use dpscalclua.Global.{spell_damage, spell_channel, has_flag}
use dpscalclua.Aura.{Aura}
use dpscalclua.Spell.{Spell}
use dpscalclua.Creature.{get_aura}
use dpscalclua.Player.Stats.{get_stat}
use dpscalclua.Event.{
  Event, CreatureRef, Additionals, SpellPart, AuraPart, Body, of_spell, of_aura,
  get_additional_damage_percentage, get_additional_damage_percentage_special,
}
use dpscalclua.Script.{Env}
use dpscalclua.Store.{
  on_option, World, M, division_by_zero, null_pointer, pure, fail, get, or_fault, ◌>>=◌,
}
use dpscalclua.Heap.{read_aura, unit_auras, the_spell, the_aura, draw}

-- `DamageMin + (DamageMax - DamageMin) * ((rand() % 1001) / 1000.0)`, in the numbers `D`.
unfoldable pub rolled_damage : (D : Type 0) ⦃d : Double D⦄ → (lo hi roll : ℕ) → ℕ
rolled_damage D ⦃d⦄ lo hi roll =
    d.to_word (
      d.add (d.of_word lo)
        (d.mul (d.of_word (sub32 hi lo)) (d.div (d.of_word roll) (d.lit 1000 0))))

module _ {D : Type 0} ⦃d : Double D⦄ where
  open d use {lit, add, mul, div, equal, of_word, to_word}

  -- The four compound assignments to `DamageMin` (and `DamageMax`): the spell power's share, the
  -- percentages, the flat addition and the special percentage, each converted back to `uint32`.
  unfoldable pub scaled_damage : Additionals D → ℕ → D → ℕ
  scaled_damage x base share =
      let powered = to_word (add (of_word base) share) in
      let raised =
        to_word (mul (of_word powered) (add one_point (get_additional_damage_percentage x))) in
      let flat = add32 raised x.damage in
      to_word (mul (of_word flat) (add one_point (get_additional_damage_percentage_special x)))

  -- `SpellPowerFactor` of `CSpellEvent::Get_Damage`.
  unfoldable pub spell_power_factor : Spell D → D
  spell_power_factor s =
      let longest = if ltb s.cast_time 1500 then 1500 else s.cast_time in
      let by_time = div (div (of_word longest) (lit 1000 0)) (lit 350 2) in
      let chosen = if not (equal s.sp_percentage zero_point) then s.sp_percentage else by_time in
      let kept = if s.damage_max == 0 then zero_point else chosen in
      if has_flag s.spell_type spell_channel then div kept (of_word s.channel_ticks) else kept

  abbrev deals_damage : Spell D → Bool
  deals_damage s =
      if not (has_flag s.spell_type spell_damage) && not (has_flag s.spell_type spell_channel)
      then false
      else true

  -- `(m_pSpell->fade / 15000.0) / (m_pSpell->fade / period)`; the second division is of integers.
  unfoldable pub per_tick_factor : {L : Type 0} → Spell D → Aura D → M (World D L) D
  per_tick_factor s template =
      if template.periodic_event_time == 0
      then fail division_by_zero
      else pure (
          div (div (of_word s.aura_fade_time) (lit 15000 0))
            (of_word (s.aura_fade_time / template.periodic_event_time)))

  -- `SpellPowerFactor` of `CAuraEvent::Get_Damage`.
  unfoldable pub aura_power_factor : {L : Type 0} → Aura D → Option ℕ → M (World D L) D
  unfolding per_tick_factor
  aura_power_factor template applied_by =
      if equal template.spell_power_factor zero_point
      then (do id ← or_fault null_pointer applied_by; s ← the_spell id; per_tick_factor s template)
      else pure template.spell_power_factor

module _ {D V L : Type 0} ⦃d : Double D⦄ (env : Env D V L) where
  open d use {mul, of_word}

  -- The part of both `Get_Damage` that rolls.
  unfoldable pub roll_damage : Additionals D → (lo hi : ℕ) → D → M (World D L) ℕ
  roll_damage x lo hi share = do
    roll ← draw env.rand 1001
    pure (rolled_damage D (scaled_damage x lo share) (scaled_damage x hi share) roll)

  -- `CSpellEvent::Get_Damage`.
  unfoldable pub spell_get_damage : Event D → SpellPart → M (World D L) ℕ
  unfolding roll_damage
  spell_get_damage e part = do
    s ← the_spell part.spell
    w ← get
    let share = mul (of_word (get_stat w.player.spell_power)) (spell_power_factor s)
    if not (deals_damage s)
        then pure 0
        else (if ltb 0 part.calculated_damage
            then pure part.calculated_damage
            else roll_damage e.extra s.damage_min s.damage_max share)

  -- The spell power that the aura kept, or else the player's.
  unfoldable pub aura_spell_power : CreatureRef → ℕ → M (World D L) ℕ
  aura_spell_power target id = do
    m ← unit_auras target
    w ← get
    on_option (get_aura m id) (pure (get_stat w.player.spell_power)) λ addr. do
      x ← read_aura addr
      pure (if ltb 0 x.spell_power then x.spell_power else get_stat w.player.spell_power)

  -- `CAuraEvent::Get_Damage`.
  unfoldable pub aura_get_damage : Event D → AuraPart → M (World D L) ℕ
  unfolding roll_damage aura_spell_power
  aura_get_damage e part = do
    template ← the_aura part.aura
    if not template.is_periodic
        then pure 0
        else (if ltb 0 part.calculated_damage then pure part.calculated_damage else (do
          factor ← aura_power_factor template part.spell
          power ← aura_spell_power e.target template.id
          roll_damage e.extra template.periodic_damage_min template.periodic_damage_max
              (mul factor (of_word power))))

  unfoldable pub event_damage_of : Event D → Body → M (World D L) ℕ
  event_damage_of e (of_spell s) = spell_get_damage e s
  event_damage_of e (of_aura a) = aura_get_damage e a

  unfoldable pub event_damage : Event D → M (World D L) ℕ
  unfolding event_damage_of
  event_damage e = event_damage_of e e.body
