-- ===== src/Registry/Targets.antt =====
-- What `L_TargetCreate` and `L_TargetDestory` (`DPSCalc/LuaIntergration.cpp`) do to `CCreatureDB`.
use dpscalclua.Base.{
  suc, ◌≡◌, refl, String, true, false, List, [], ◌∷◌, Option, none, some, inl, inr, arith,
  Option-cases, ap, ◌∙◌, if◌then◌else◌, Bool-cases,
}
use text.Mathlib.Text.{◌==◌ as str_eq}
use text.Mathlib.TextEquality.{eq_iff}
use dpscalclua.Double.{Double}
use dpscalclua.Creature.{
  Creature, new_creature, add_creature, get_creature_by_name, remove_creature_by_name,
}
use dpscalclua.Event.{creature}
use dpscalclua.Store.{World, done, pure, get, modify, on_option, ◌>>=◌}
use dpscalclua.Script.{Env, message, raised, returned}
use dpscalclua.Lua.Args.{need_string}
use dpscalclua.Lua.Units.{unit_by_name, lua_target_create, lua_target_destroy}

abbrev or_new : Creature → String → Option Creature → Option Creature
or_new c name none = if str_eq c.name name then some c else none
or_new c name (some x) = some x

get_creature_by_name-add_creature :
    (v : List Creature) (c : Creature) (name : String)
    → get_creature_by_name (add_creature v c) name ≡ or_new c name (get_creature_by_name v name)
unfolding get_creature_by_name add_creature
get_creature_by_name-add_creature [] c name = refl
get_creature_by_name-add_creature (x ∷ v) c name =
    ground (arith, get_creature_by_name-add_creature v c name)

remove_creature_by_name-add_creature :
    (v : List Creature) (c : Creature)
    → str_eq c.name c.name ≡ true
    → get_creature_by_name v c.name ≡ none
    → remove_creature_by_name (add_creature v c) c.name ≡ v
unfolding get_creature_by_name add_creature remove_creature_by_name
remove_creature_by_name-add_creature [] c e h = rw e refl
remove_creature_by_name-add_creature (x ∷ v) c e h =
    ground (arith, remove_creature_by_name-add_creature v c e)

module _ {D L : Type 0} where
  -- The store with a new target.
  abbrev pub with_target : World D L → String → World D L
  with_target w name = record w {
    next_addr = suc w.next_addr;
    creatures = add_creature w.creatures (new_creature w.next_addr name);
  }

  -- No unit has the name, and it is not one of the two that are reserved.
  pub record IsFree (w : World D L) (name : String) : Type 0 where
    pub not_player : str_eq name "player" ≡ false
    pub not_target : str_eq name "target" ≡ false
    pub unknown : unit_by_name w name ≡ none

  IsFree-none :
      (w : World D L) (name : String) → IsFree w name → get_creature_by_name w.creatures name ≡ none
  unfolding unit_by_name
  IsFree-none w name h = elim (Option-cases (get_creature_by_name w.creatures name)) [
    | inl e ↦ e
    | inr (c, e) ↦ absurd (ground (arith, e, h.not_player, h.not_target, h.unknown))
  ]

  unit_by_name-with_target :
      (w : World D L) (name x : String)
      → IsFree w name
      → unit_by_name (with_target w name) x
        ≡ (if str_eq name x then some (creature w.next_addr) else unit_by_name w x)
  unfolding unit_by_name new_creature
  unit_by_name-with_target w name x h =
      let new = new_creature w.next_addr name in
      let found = get_creature_by_name-add_creature w.creatures new x in
      let none_yet = IsFree-none w name h in
      elim (Bool-cases (str_eq name x)) [
        | inl e ↦ rw found (ground (arith, e, eq_iff name x, h.not_player, h.not_target, none_yet))
        | inr e ↦
            rw (found, e)
              (elim (Option-cases (get_creature_by_name w.creatures x)) [
                | inl n ↦ rw n (rw e refl)
                | inr (c, n) ↦ rw n refl
              ])
      ]

module _ {D V L : Type 0} ⦃d : Double D⦄ (env : Env D V L) where
  -- `TargetCreate` with a name that is neither reserved nor known: it returns nothing, and then the name
  -- stands for the new target and every other name for what it stood for before. The same call once more
  -- raises an error and changes nothing; `TargetDestory` makes the store what it was before, but for the
  -- address that is used up.
  pub lua_target_create_lem :
      (a : V) (w : World D L)
      → env.api.is_string a ≡ true
      → IsFree w (env.api.to_string a)
      → (lua_target_create env (a ∷ []) w
          ≡ done (returned []) (with_target w (env.api.to_string a)))
        × ((x : String)
            → unit_by_name (with_target w (env.api.to_string a)) x ≡ (
                if str_eq (env.api.to_string a) x
                then some (creature w.next_addr)
                else unit_by_name w x))
        × (lua_target_create env (a ∷ []) (with_target w (env.api.to_string a))
            ≡ done (raised (message "Target already exists")) (with_target w (env.api.to_string a)))
        × (lua_target_destroy env (a ∷ []) (with_target w (env.api.to_string a))
            ≡ done (returned []) (record w { next_addr = suc w.next_addr }))
  unfolding lua_target_create lua_target_destroy need_string on_option get modify pure ◌>>=◌
      new_creature
  lua_target_create_lem a w s h =
      let name = env.api.to_string a in
      let itself : str_eq name name ≡ true = ground (arith, eq_iff name name) in
      let known : unit_by_name (with_target w name) name ≡ some (creature w.next_addr) =
        unit_by_name-with_target w name name h ∙ rw itself refl in
      (
        rw (s, h.not_player, h.not_target, h.unknown) refl,
        λ x. unit_by_name-with_target w name x h,
        rw (s, h.not_player, h.not_target, known) refl,
        rw s (
            ap (λ l. done (returned []) (record w { next_addr = suc w.next_addr; creatures = l }))
              (remove_creature_by_name-add_creature w.creatures (new_creature w.next_addr name)
                itself (IsFree-none w name h))),
      )
