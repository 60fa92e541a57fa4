-- ===== src/Lua/Units.antt =====
-- The functions of `DPSCalc/LuaIntergration.cpp` on creatures, casts and applied auras, and on the run.
use dpscalclua.Base.{
  ℕ, suc, String, Bool, true, false, List, [], ◌∷◌, Option, none, some, ◌||◌, not, sub32, ltb,
  if◌then◌else◌,
}
use text.Mathlib.Text.{◌==◌ as str_eq}
use dpscalclua.Double.{Double}
use dpscalclua.Aura.{get_aura_by_id}
use dpscalclua.Spell.{get_spell_by_name}
use dpscalclua.Creature.{
  Creature, new_creature, get_aura, add_creature, get_creature_by_name, remove_creature_by_name,
}
use dpscalclua.Player.{is_idle}
use dpscalclua.Event.{CreatureRef, the_player, creature, new_spell_event, new_aura_event}
use dpscalclua.EventSystem.{ready_exit}
use dpscalclua.Store.{on_option, World, M, pure, get, modify, ◌>>=◌, ◌>>◌}
use dpscalclua.Script.{Env, Push, Reply, returned, push_nil, push_number}
use dpscalclua.Heap.{read_aura, unit_auras, spawn}
use dpscalclua.Lua.Args.{
  need_string, need_integer, need_boolean, optional_integer, with_player, lua_error, push,
  push_nothing,
}

abbrev ref_of : Option Creature → Option CreatureRef
ref_of none = none
ref_of (some c) = some (creature c.addr)

abbrev is_some : {A : Type 0} → Option A → Bool
is_some none = false
is_some (some a) = true

module _ {D L : Type 0} where
  -- `GetCreatureByName`: two names are reserved.
  unfoldable pub unit_by_name : World D L → String → Option CreatureRef
  unit_by_name w name =
      if str_eq name "player"
      then (if w.has_player then some the_player else none)
      else (if str_eq name "target"
          then w.current_target
          else ref_of (get_creature_by_name w.creatures name))

module _ {D V L : Type 0} ⦃d : Double D⦄ (env : Env D V L) where
  unfoldable pub lua_target_create : List V → M (World D L) (Reply D)
  lua_target_create vs = need_string env.api vs 1 λ name. do
    w ← get
    if str_eq name "player" || str_eq name "target" || is_some (unit_by_name w name)
        then lua_error "Target already exists"
        else (do
          let c = new_creature w.next_addr name
          modify (λ v. record v {
            next_addr = suc v.next_addr;
            creatures = add_creature v.creatures c;
          })
          push_nothing)

  unfoldable pub lua_target_destroy : List V → M (World D L) (Reply D)
  lua_target_destroy vs = need_string env.api vs 1 λ name. do
    modify (λ w. record w { creatures = remove_creature_by_name w.creatures name })
    push_nothing

  -- `new CSpellEvent(...)` and `AddEvent(pEvent, 0)`.
  unfoldable pub start_cast : ℕ → CreatureRef → M (World D L) (Reply D)
  start_cast spell target = do
    spawn (λ a. new_spell_event (env.junk_word a) a spell target) 0
    push_nothing

  unfoldable pub lua_cast_spell_by_name : List V → M (World D L) (Reply D)
  lua_cast_spell_by_name vs = need_string env.api vs 1 λ spell_name.
      need_string env.api vs 2 λ target_name. with_player (do
        w ← get
        if not (is_idle w.player w.system.game_time)
            then push_nothing
            else on_option (get_spell_by_name w.spell_db spell_name) (push_nothing) λ s.
              on_option (unit_by_name w target_name) (push_nothing)
                λ target. start_cast s.id target)

  -- `new CAuraEvent(...)` and `AddEvent(pEvent, 0)`.
  unfoldable pub start_aura : ℕ → CreatureRef → ℕ → ℕ → Bool → M (World D L) (Reply D)
  start_aura aura target stacks fade not_set = do
    spawn (λ a. new_aura_event (env.junk_word a) a aura target stacks fade not_set) 0
    push_nothing

  unfoldable pub lua_unit_apply_aura : List V → M (World D L) (Reply D)
  lua_unit_apply_aura vs = need_string env.api vs 1 λ name. need_integer env.api vs 2 λ aura.
      need_boolean env.api vs 5 λ not_set. do
        let stacks = optional_integer env.api vs 3 1
        let fade = optional_integer env.api vs 4 0
        w ← get
        on_option (unit_by_name w name) (push_nothing) λ target.
            on_option (get_aura_by_id w.aura_db aura) (push_nothing)
              λ a. start_aura aura target stacks fade not_set

  abbrev two_nils : M (World D L) (Reply D)
  two_nils = pure (returned (push_nil ∷ push_nil ∷ []))

  unfoldable pub lua_unit_aura_applied : List V → M (World D L) (Reply D)
  lua_unit_aura_applied vs = need_string env.api vs 1 λ name. need_integer env.api vs 2 λ aura. do
    w ← get
    on_option (unit_by_name w name) (two_nils) λ target. do
      m ← unit_auras target
      on_option (get_aura m aura) (two_nils) λ addr. do
        x ← read_aura addr
        let left = d.of_word (sub32 x.fade_time w.system.game_time)
        let remain : Push D = if ltb 0 x.fade_time then push_number left else push_nil
        pure (returned (push_number (d.of_word x.ticks) ∷ remain ∷ []))

  unfoldable pub lua_get_game_time : List V → M (World D L) (Reply D)
  lua_get_game_time vs = do w ← get; push (push_number (d.of_word w.system.game_time))

  unfoldable pub lua_finalize_calculation : List V → M (World D L) (Reply D)
  lua_finalize_calculation vs = do
    modify (λ w. record w { system = ready_exit w.system })
    push_nothing
