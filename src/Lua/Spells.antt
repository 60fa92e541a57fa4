-- ===== src/Lua/Spells.antt =====
-- The functions of `DPSCalc/LuaIntergration.cpp` on spells.
use Prim.Native.Nat.{bit_or}
use dpscalclua.Base.{ℕ, List, Option, none, some, ◌==◌, if◌then◌else◌}
use dpscalclua.Double.{Double}
use dpscalclua.Global.{spell_damage, spell_aura_application, spell_channel}
use dpscalclua.Map.{assign}
use dpscalclua.Aura.{get_aura_by_id}
use dpscalclua.Spell.{Spell, new_spell, add_spell, get_spell_by_id, get_spell_by_name}
use dpscalclua.Store.{on_option, World, M, get, modify, ◌>>=◌, ◌>>◌}
use dpscalclua.Script.{Env, Reply, push_nil, push_number, push_string}
use dpscalclua.Lua.Args.{need_string, need_number, need_integer, lua_error, push, push_nothing}

-- The local variables of `L_SpellAdd` that depend on the type of the spell.
pub record SpellArgs : Type 0 where
  pub school : ℕ
  pub damage_min : ℕ
  pub damage_max : ℕ
  pub aura_to_apply : Option ℕ
  pub aura_fade_time : ℕ
  pub channel_ticks : ℕ

abbrev no_args : SpellArgs
no_args = record {
  school = 0;
  damage_min = 0;
  damage_max = 0;
  aura_to_apply = none;
  aura_fade_time = 0;
  channel_ticks = 0;
}

module _ {D V L : Type 0} ⦃d : Double D⦄ (env : Env D V L) where
  abbrev Step : Type 0
  Step = SpellArgs → (SpellArgs → M (World D L) (Reply D)) → M (World D L) (Reply D)

  damage_args : ℕ → List V → Step
  damage_args kind vs x rest =
      if bit_or kind spell_damage == kind
      then (need_integer env.api vs 5 λ school. need_integer env.api vs 6 λ dmin.
          need_integer env.api vs 7
            λ dmax. rest (record x { school = school; damage_min = dmin; damage_max = dmax }))
      else rest x

  aura_args : ℕ → List V → Step
  aura_args kind vs x rest =
      if bit_or kind spell_aura_application == kind
      then (need_integer env.api vs 5 λ school. need_integer env.api vs 8 λ aura.
          need_integer env.api vs 9 λ fade. do
            w ← get
            on_option (get_aura_by_id w.aura_db aura) (lua_error "Invaild aura id") λ a.
                rest
                  (record x { school = school; aura_to_apply = some aura; aura_fade_time = fade }))
      else rest x

  channel_args : ℕ → List V → Step
  channel_args kind vs x rest =
      if bit_or kind spell_channel == kind
      then (need_integer env.api vs 5 λ school. need_integer env.api vs 6 λ dmin.
          need_integer env.api vs 7 λ dmax. need_integer env.api vs 10 λ ticks. rest (record x {
            school = school;
            damage_min = dmin;
            damage_max = dmax;
            channel_ticks = ticks;
          }))
      else rest x

  -- `new CSpell(...)` and `AddSpell`, and the id that is pushed.
  register_spell : Spell D → M (World D L) (Reply D)
  register_spell s = do
    w ← get
    let (db, id) = add_spell w.spell_db s
    modify (λ v. record v { spell_db = db })
    push (push_number (d.of_word id))

  unfoldable pub lua_spell_add : List V → M (World D L) (Reply D)
  unfolding damage_args aura_args channel_args register_spell
  lua_spell_add vs = need_string env.api vs 1 λ name. need_integer env.api vs 2 λ kind.
      need_integer env.api vs 3 λ cast. need_integer env.api vs 4 λ cooldown.
        damage_args kind vs no_args λ x. aura_args kind vs x λ y. channel_args kind vs y λ z.
          register_spell (
            new_spell (env.junk_word 0) name kind z.damage_min z.damage_max cast cooldown z.school
              z.aura_to_apply z.aura_fade_time z.channel_ticks)

  unfoldable pub lua_spell_name_to_id : List V → M (World D L) (Reply D)
  lua_spell_name_to_id vs = need_string env.api vs 1 λ name. do
    w ← get
    on_option (get_spell_by_name w.spell_db name) (push push_nil)
        λ s. push (push_number (d.of_word s.id))

  -- The functions that push a property of the spell with a given id, or nil.
  spell_property : List V → (Spell D → M (World D L) (Reply D)) → M (World D L) (Reply D)
  spell_property vs f =
      need_integer env.api vs 1
        λ id. do w ← get; on_option (get_spell_by_id w.spell_db id) (push push_nil) λ s. f s

  unfoldable pub lua_spell_id_to_name : List V → M (World D L) (Reply D)
  unfolding spell_property
  lua_spell_id_to_name vs = spell_property vs λ s. push (push_string s.name)

  unfoldable pub lua_spell_get_cooldown : List V → M (World D L) (Reply D)
  unfolding spell_property
  lua_spell_get_cooldown vs = spell_property vs λ s. push (push_number (d.of_word s.cooldown))

  unfoldable pub lua_spell_get_school : List V → M (World D L) (Reply D)
  unfolding spell_property
  lua_spell_get_school vs = spell_property vs λ s. push (push_number (d.of_word s.school))

  unfoldable pub lua_spell_set_sp_percentage : List V → M (World D L) (Reply D)
  lua_spell_set_sp_percentage vs = need_integer env.api vs 1 λ id. do
    w ← get
    on_option (get_spell_by_id w.spell_db id) push_nothing λ s. need_number env.api vs 2 λ x. do
      let spells = assign id (record s { sp_percentage = x }) w.spell_db.spells
      modify (λ v. record v { spell_db = record w.spell_db { spells = spells } })
      push_nothing
