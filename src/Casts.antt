-- ===== src/Casts.antt =====
-- What `L_CastSpellByName` of `DPSCalc/LuaIntergration.cpp` does to the store on every branch; Sleep is
-- about `L_PlayerSleep`.
pub mod Sleep
use dpscalclua.Base.{
  ℕ, suc, ◌≡◌, ◌∙◌, ap, refl, String, true, [], ◌∷◌, Option, none, some, inl, inr, if◌then◌else◌,
  Bool-cases, Option-cases,
}
use dpscalclua.Double.{Double}
use dpscalclua.Map.{insert}
use dpscalclua.Spell.{Spell, get_spell_by_name}
use dpscalclua.Player.{is_idle}
use dpscalclua.Event.{CreatureRef, new_spell_event}
use dpscalclua.EventSystem.{add_event}
use dpscalclua.Store.{World, M, null_pointer, done, pure, fail, get, on_option, ◌>>=◌}
use dpscalclua.Script.{Env, returned}
use dpscalclua.Heap.{new_event, enqueue, spawn}
use dpscalclua.Heap.Laws.{bind-done}
use dpscalclua.Lua.Args.{need_string, with_player}
use dpscalclua.Lua.Units.{unit_by_name, start_cast, lua_cast_spell_by_name}

with_player-done :
    {D L A : Type 0} (k : M (World D L) A) (w : World D L)
    → w.has_player ≡ true
    → with_player k w ≡ k w
unfolding with_player get
with_player-done k w h = bind-done get _ w refl ∙ ap (λ b. (if b then k else fail null_pointer) w) h

module _ {D V L : Type 0} ⦃d : Double D⦄ (env : Env D V L) where
  -- The store with a new cast, which is due at once.
  abbrev pub with_cast : World D L → ℕ → CreatureRef → World D L
  with_cast w spell target = record w {
    next_addr = suc w.next_addr;
    events =
        insert w.next_addr (new_spell_event (env.junk_word w.next_addr) w.next_addr spell target)
          w.events;
    system = add_event w.system w.next_addr 0;
  }

  abbrev cast_on : World D L → Spell D → Option CreatureRef → World D L
  cast_on w s none = w
  cast_on w s (some target) = with_cast w s.id target

  abbrev cast_of : World D L → Option (Spell D) → Option CreatureRef → World D L
  cast_of w none target = w
  cast_of w (some s) target = cast_on w s target

  -- One new cast if the player is idle and the two names are known, else nothing.
  abbrev pub after_cast : World D L → (spell target : String) → World D L
  after_cast w spell target =
      if is_idle w.player w.system.game_time
      then cast_of w (get_spell_by_name w.spell_db spell) (unit_by_name w target)
      else w

  start_cast-done :
      (spell : ℕ) (target : CreatureRef) (w : World D L)
      → start_cast env spell target w ≡ done (returned []) (with_cast w spell target)
  unfolding start_cast spawn new_event enqueue ◌>>=◌
  start_cast-done spell target w = refl

  -- With two strings for arguments and a player, `CastSpellByName` returns nothing. It makes one cast, due
  -- at once, if the player is idle and the spell and the target are known, and else changes nothing. The
  -- name `target` stands for the current target, and is known if there is one.
  pub lua_cast_spell_by_name_lem :
      (a b : V) (w : World D L)
      → env.api.is_string a ≡ true
      → env.api.is_string b ≡ true
      → w.has_player ≡ true
      → lua_cast_spell_by_name env (a ∷ b ∷ []) w
        ≡ done (returned []) (after_cast w (env.api.to_string a) (env.api.to_string b))
  unfolding lua_cast_spell_by_name need_string on_option get pure ◌>>=◌
  lua_cast_spell_by_name_lem a b w sa sb player =
      rw (sa, sb)
        (with_player-done _ w player ∙ elim (Bool-cases (is_idle w.player w.system.game_time)) [
          | inr busy ↦ rw busy refl
          | inl idle ↦
              rw idle (elim (Option-cases (get_spell_by_name w.spell_db (env.api.to_string a))) [
                | inl e ↦ rw e refl
                | inr (s, e) ↦ rw e (elim (Option-cases (unit_by_name w (env.api.to_string b))) [
                  | inl f ↦ rw f refl
                  | inr (u, f) ↦ rw f (start_cast-done s.id u w)
                ])
              ])
        ])
