-- ===== src/Rounds/Clock.antt =====
-- The clock in one round of the loop of `Perform`.
use dpscalclua.Base.{
  ℕ, ◌+◌, ◌≤◌, ◌<◌, ◌≡◌, refl, sym, subst, ◌∙◌, Bool, true, false, List, [], ◌∷◌, Option, none,
  some, inl, inr, arith, word_mod, Option-cases,
}
use dpscalclua.Double.{Double}
use dpscalclua.Map.{Map, find}
use dpscalclua.Player.{Player, get_spell_cooldown, is_idle}
use dpscalclua.EventSystem.{EventSystem, advance}
use dpscalclua.Store.{World, M, done, pure, get, when, ◌>>=◌, on_option}
use dpscalclua.Script.{Env, player_idle}
use dpscalclua.Lua.Dispatch.{call_lua_function}
use dpscalclua.Simulation.{due, process_event, round}
use dpscalclua.Processed.{process_event-IsProcessed, bind-inv, option-inv}
use dpscalclua.Steady.Rules.{Stays, Stays-when, Shows, now}
use dpscalclua.Steady.Routines.{Stays-call_lua_function}
use dpscalclua.Steady.Loop.{process_event-steady}

-- The time stamps that the loop looks at fit into 32 bits.
pub record HasStamps {D : Type 0} (p : Player D) : Type 0 where
  pub global : p.global_cooldown_recovery < word_mod
  pub own : (t : ℕ) → find 0 p.cooldowns ≡ some t → t < word_mod

-- How the clock moves when nothing is due: forward, not beyond the first event, and not at all only if
-- there is no event and no time to wait for.
pub record Moves (s : EventSystem) (next later : ℕ) : Type 0 where
  pub forward : s.game_time ≤ later
  pub halted : later ≡ s.game_time → (s.event_map ≡ []) × (next ≡ 0)
  pub bounded : (t : ℕ) (l : List ℕ) (m : Map (List ℕ)) → s.event_map ≡ (t, l) ∷ m → later ≤ t

cooldown-lt :
    {D : Type 0} (p : Player D) (time : ℕ)
    → time < word_mod
    → HasStamps p
    → time + get_spell_cooldown p time 0 < word_mod
unfolding get_spell_cooldown
cooldown-lt p time small h = elim (Option-cases (find 0 p.cooldowns)) [
  | inl e ↦ rw e (ground (arith, h.global))
  | inr (t, e) ↦ rw e (ground (arith, h.global, h.own t e))
]

advance-Moves :
    (s : EventSystem) (next : ℕ)
    → due s ≡ none
    → s.game_time + next < word_mod
    → Moves s next (advance s next).game_time
unfolding advance due
advance-Moves s next e small = by_map s.event_map e
  where
    by_map :
        (m : Map (List ℕ))
        → due (record s { event_map = m }) ≡ none
        → Moves
            (record s { event_map = m })
            next
            (advance (record s { event_map = m }) next).game_time
    by_map [] e = record {
      forward = omega arith;
      halted = λ h. (refl, omega arith);
      bounded = λ t l m g. absurd (cc g);
    }
    by_map ((k, l) ∷ m) e = record {
      forward = ground arith;
      halted = λ h. absurd (ground arith);
      bounded = λ t l' m' g. let same : k ≡ t = cc g in ground arith;
    }

abbrev pub Ticks : {D L : Type 0} → World D L → Bool → World D L → Type 0
Ticks w true v = v.system.game_time ≡ w.system.game_time
Ticks w false v =
    Moves w.system (get_spell_cooldown w.player w.system.game_time 0) v.system.game_time

nothing_done :
    {S : Type 0} (u v : S) (b : Bool) → pure {A = Option Bool} none u ≡ done (some b) v → ⊥
unfolding pure
nothing_done u v b e = cc e

module _ {D V L : Type 0} ⦃d : Double D⦄ (env : Env D V L) where
  Ticks-process_event :
      (fuel : ℕ) (w u : World D L) (b : Bool)
      → w.system.game_time < word_mod
      → HasStamps w.player
      → process_event env fuel (get_spell_cooldown w.player w.system.game_time 0) w
        ≡ done (some b) u
      → Ticks w b u
  Ticks-process_event fuel w u true small h e = process_event-steady env fuel _ w u e
  Ticks-process_event fuel w u false small h e =
      let next = get_spell_cooldown w.player w.system.game_time 0 in
      let (nothing, moved) = process_event-IsProcessed env fuel next w u false e in
      subst (λ (z : World D L). Moves w.system next z.system.game_time) (sym moved)
        (advance-Moves w.system next nothing (cooldown-lt w.player w.system.game_time small h))

  -- What a round does after `ProcessEvent`.
  abbrev pub idle_turn : Bool → M (World D L) (Option Bool)
  idle_turn b = get >>= λ v.
      when (is_idle v.player v.system.game_time) (call_lua_function env player_idle 0) >>= λ t.
      pure (some b)

  idle_turn-inv :
      (u v : World D L) (c b : Bool) → idle_turn c u ≡ done (some b) v → (c ≡ b) × (now v ≡ now u)
  unfolding get pure ◌>>=◌
  idle_turn-inv u v c b e =
      let turn = when (is_idle u.player (now u)) (call_lua_function env player_idle 0) in
      let (t, x, p, q) = bind-inv turn (λ t. pure (some c)) u v (some b) e in
      let still : Stays turn = Stays-when _ _ (Stays-call_lua_function env player_idle 0) in
      let same : x ≡ v = cc q in
      (cc q, subst (λ (z : World D L). now z ≡ now u) same (subst (Shows u) p (still.at u)).steady)

  moved_by : (w u v : World D L) (b c : Bool) → c ≡ b → now v ≡ now u → Ticks w c u → Ticks w b v
  moved_by w u v true true e same h = same ∙ h
  moved_by w u v false false e same h =
      subst (λ t. Moves w.system (get_spell_cooldown w.player (now w) 0) t) (sym same) h
  moved_by w u v true false e same h = absurd (cc e)
  moved_by w u v false true e same h = absurd (cc e)

  -- A round of the loop of `Perform`, from a clock and time stamps that fit into 32 bits: one in which events
  -- run leaves the clock as it was; one in which nothing is due moves it forward and not beyond the first
  -- event of the queue, and lets it stand only if the queue is empty and the player has no cooldown to
  -- wait for.
  pub round-Ticks :
      (fuel : ℕ) (w v : World D L) (b : Bool)
      → w.system.game_time < word_mod
      → HasStamps w.player
      → round env fuel w ≡ done (some b) v
      → Ticks w b v
  unfolding round get ◌>>=◌
  round-Ticks fuel w v b small h e =
      let next = get_spell_cooldown w.player (now w) 0 in
      let rest : Option Bool → M (World D L) (Option Bool) =
        λ r. on_option r (pure none) idle_turn in
      let (r, u, p, q) = bind-inv (process_event env fuel next) rest w v (some b) e in
      elim (option-inv r (pure none) idle_turn u (done (some b) v) q) [
        | inl (n, g) ↦ absurd (nothing_done u v b g)
        | inr (c, n, g) ↦
            let (same, still) = idle_turn-inv u v c b g in
            moved_by w u v b c same still (
              Ticks-process_event fuel w u c small h
                (subst (λ o. process_event env fuel next w ≡ done o u) n p))
      ]
