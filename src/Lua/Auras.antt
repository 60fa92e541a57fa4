-- ===== src/Lua/Auras.antt =====
-- The functions of `DPSCalc/LuaIntergration.cpp` on aura templates.
use dpscalclua.Base.{ℕ, suc, true, false, List, add32, if◌then◌else◌}
use dpscalclua.Double.{Double}
use dpscalclua.Map.{assign}
use dpscalclua.Aura.{Aura, new_aura, add_aura, get_aura_by_id, get_aura_by_name}
use dpscalclua.Store.{on_option, World, M, get, modify, ◌>>=◌, ◌>>◌}
use dpscalclua.Script.{Env, Reply, push_nil, push_number, push_string}
use dpscalclua.Lua.Args.{
  need_string, need_number, need_integer, need_boolean, lua_error, push, push_nothing,
}

module _ {D V L : Type 0} ⦃d : Double D⦄ (env : Env D V L) where
  -- `new CAura(...)` and `AddAura`, and the id that is pushed.
  unfoldable pub register_aura : (Aura D → ℕ → ℕ → Aura D) → M (World D L) (Reply D)
  register_aura make = do
    w ← get
    let addr = w.next_addr
    let guid = add32 w.guid_counter 1
    let (db, id) = add_aura w.aura_db (make (env.junk_aura addr) addr guid)
    modify (λ v. record v { next_addr = suc addr; guid_counter = guid; aura_db = db })
    push (push_number (d.of_word id))

  unfoldable pub lua_aura_add : List V → M (World D L) (Reply D)
  lua_aura_add vs = need_string env.api vs 1 λ name. need_boolean env.api vs 2 λ periodic.
      if periodic
      then (need_integer env.api vs 3 λ dmin. need_integer env.api vs 4 λ dmax.
          need_integer env.api vs 5 λ time. need_integer env.api vs 6 λ school.
            register_aura λ junk addr guid.
              new_aura junk addr guid name 1 true dmin dmax school false false time)
      else register_aura λ junk addr guid. new_aura junk addr guid name 1 false 0 0 0 false false 0

  unfoldable pub lua_aura_name_to_id : List V → M (World D L) (Reply D)
  lua_aura_name_to_id vs = need_string env.api vs 1 λ name. do
    w ← get
    on_option (get_aura_by_name w.aura_db name) (push push_nil)
        λ a. push (push_number (d.of_word a.id))

  unfoldable pub lua_aura_id_to_name : List V → M (World D L) (Reply D)
  lua_aura_id_to_name vs = need_integer env.api vs 1 λ id. do
    w ← get
    on_option (get_aura_by_id w.aura_db id) (push push_nil) λ a. push (push_string a.name)

  -- A write to the template through the pointer that `GetAuraByID` gave.
  unfoldable pub change_template : ℕ → (Aura D → Aura D) → M (World D L) (Reply D)
  change_template id f = do
    w ← get
    on_option (get_aura_by_id w.aura_db id) (lua_error "Aura not found") λ a. do
      let auras = assign id (f a) w.aura_db.auras
      modify (λ v. record v { aura_db = record w.aura_db { auras = auras } })
      push_nothing

  unfoldable pub lua_aura_enable_crit : List V → M (World D L) (Reply D)
  unfolding change_template
  lua_aura_enable_crit vs =
      need_integer env.api vs 1 λ id. change_template id λ a. record a { crit_enabled = true }

  unfoldable pub lua_aura_disable_crit : List V → M (World D L) (Reply D)
  unfolding change_template
  lua_aura_disable_crit vs =
      need_integer env.api vs 1 λ id. change_template id λ a. record a { crit_enabled = false }

  unfoldable pub lua_aura_enable_haste : List V → M (World D L) (Reply D)
  unfolding change_template
  lua_aura_enable_haste vs =
      need_integer env.api vs 1 λ id. change_template id λ a. record a { haste_enabled = true }

  unfoldable pub lua_aura_disable_haste : List V → M (World D L) (Reply D)
  unfolding change_template
  lua_aura_disable_haste vs =
      need_integer env.api vs 1 λ id. change_template id λ a. record a { haste_enabled = false }

  unfoldable pub lua_aura_get_school : List V → M (World D L) (Reply D)
  lua_aura_get_school vs = need_integer env.api vs 1 λ id. do
    w ← get
    on_option (get_aura_by_id w.aura_db id) (push push_nil)
        λ a. push (push_number (d.of_word a.school))

  unfoldable pub lua_aura_set_sp_percentage_per_tick : List V → M (World D L) (Reply D)
  unfolding change_template
  lua_aura_set_sp_percentage_per_tick vs = need_integer env.api vs 1 λ id.
      need_number env.api vs 2 λ x. change_template id λ a. record a { spell_power_factor = x }
