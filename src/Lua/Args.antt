-- ===== src/Lua/Args.antt =====
-- The macros of `DPSCalc/LuaIntergration.h` that read a parameter or raise an error.
use dpscalclua.Base.{
  ℕ, zero, suc, String, Bool, false, List, [], ◌∷◌, Option, none, some, get_elem?, if◌then◌else◌,
}
use dpscalclua.Store.{on_option, World, M, null_pointer, pure, fail, get, ◌>>=◌}
use dpscalclua.Script.{
  LuaApi, Push, Reply, returned, raised, expected_string, expected_number, expected_integer,
  expected_boolean, message,
}

-- The stack's entry `i`, from 1; `none` is `LUA_TNONE`.
abbrev pub arg : {V : Type 0} → List V → ℕ → Option V
arg vs zero = none
arg vs (suc i) = get_elem? vs i

module _ {D V L : Type 0} (api : LuaApi V D) where
  -- `LUA_TO_STRING(L, i, c)` before `rest`.
  unfoldable pub need_string :
      List V → ℕ → (String → M (World D L) (Reply D)) → M (World D L) (Reply D)
  need_string vs i rest =
      on_option (arg vs i) (pure (raised (expected_string i)))
        λ v. if api.is_string v then rest (api.to_string v) else pure (raised (expected_string i))

  unfoldable pub need_number : List V → ℕ → (D → M (World D L) (Reply D)) → M (World D L) (Reply D)
  need_number vs i rest =
      on_option (arg vs i) (pure (raised (expected_number i)))
        λ v. if api.is_number v then rest (api.to_number v) else pure (raised (expected_number i))

  unfoldable pub need_integer : List V → ℕ → (ℕ → M (World D L) (Reply D)) → M (World D L) (Reply D)
  need_integer vs i rest =
      on_option (arg vs i) (pure (raised (expected_integer i)))
        λ v. if api.is_number v then rest (api.to_integer v) else pure (raised (expected_integer i))

  unfoldable pub need_boolean :
      List V → ℕ → (Bool → M (World D L) (Reply D)) → M (World D L) (Reply D)
  need_boolean vs i rest = on_option (arg vs i) (rest false) λ v.
      if api.is_nil v
      then rest false
      else (if api.is_boolean v
          then rest (api.to_boolean v)
          else pure (raised (expected_boolean i)))

module _ {D V : Type 0} (api : LuaApi V D) where
  -- `if (lua_isnumber(L, i)) c = lua_tointeger(L, i);`
  unfoldable pub optional_integer : List V → ℕ → ℕ → ℕ
  optional_integer vs i c = elim (arg vs i) [
    | none ↦ c
    | some v ↦ if api.is_number v then api.to_integer v else c
  ]

module _ {D L : Type 0} where
  -- A call through `GetCurrentPlayer()`.
  unfoldable pub with_player : {A : Type 0} → M (World D L) A → M (World D L) A
  with_player k = do w ← get; if w.has_player then k else fail null_pointer

  -- `LUA_ERROR(L, text)`.
  abbrev pub lua_error : String → M (World D L) (Reply D)
  lua_error text = pure (raised (message text))

  abbrev pub push : Push D → M (World D L) (Reply D)
  push p = pure (returned (p ∷ []))

  abbrev pub push_nothing : M (World D L) (Reply D)
  push_nothing = pure (returned [])
