-- ===== src/Fading.antt =====
-- Events that come too early or too late: a removal before the fade time of its aura, and the events of a
-- cast that was stopped.
use dpscalclua.Base.{
  ℕ, ◌<◌, ◌≡◌, ◌∙◌, ap, refl, Bool, true, false, not, ◌⊎◌, inl, inr, none, some, arith, add32,
  sub32, word_mod, ltb, if◌then◌else◌, Bool-cases, [],
}
use dpscalclua.Double.{Double}
use dpscalclua.Global.{event_spell_cast, event_pre, event_post, has_flag}
use dpscalclua.Map.{find}
use dpscalclua.Aura.{Aura}
use dpscalclua.Player.{is_idle}
use dpscalclua.Event.{Event, SpellPart, of_spell}
use dpscalclua.EventSystem.{add_event, push_at}
use dpscalclua.Store.{World, done, pure, get, modify, when, ◌>>=◌, ◌>>◌}
use dpscalclua.Script.{Env, returned}
use dpscalclua.Lua.Args.{push_nothing}
use dpscalclua.Heap.{read_aura, game_time, enqueue}
use dpscalclua.Heap.Laws.{bind-done, read_aura-done, game_time-done, enqueue-done}
use dpscalclua.Combat.AuraEvents.{remove_when_due}
use dpscalclua.Combat.SpellEvents.{
  same_pointer, read_spell_event, run_pre, run_post, run_spell_event, post_action,
}
use dpscalclua.Safety.SpellEvents.{read_spell_event-done}
use dpscalclua.Lua.Casting.{lua_stop_casting}
use dpscalclua.Heap.{update_player}
use dpscalclua.Player.{Player, stop_casting}
use dpscalclua.Safety.Core.{cast_pre, cast_post, channel_pre, channel_post}

module _ {D L : Type 0} where
  abbrev pub with_queue : World D L → ℕ → ℕ → World D L
  with_queue w time e = record w {
    system = record w.system { event_map = push_at time e w.system.event_map };
  }

  -- Whether the cast that an event belongs to is not, or no longer, the player's.
  abbrev pub is_dropped : World D L → ℕ → Event D → Bool
  is_dropped w this e =
      let cast = has_flag e.event_type event_spell_cast in
      if has_flag e.event_type event_pre
      then (if cast
          then not (is_idle w.player w.system.game_time)
          else not (same_pointer w.player.casting_spell e.parent))
      else not (same_pointer w.player.casting_spell (if cast then some this else e.parent))

module _ {D V L : Type 0} ⦃d : Double D⦄ (env : Env D V L) where
  -- A removal that comes before the fade time of its aura, a time below 2 ^ 32, is put back into
  -- the queue at exactly that time, and nothing else changes.
  pub remove_when_due-early :
      (this addr : ℕ) (e : Event D) (t x : Aura D) (w : World D L)
      → find addr w.auras ≡ some x
      → w.system.game_time < x.fade_time
      → x.fade_time < word_mod
      → remove_when_due env this e t addr w ≡ done false (with_queue w x.fade_time this)
  unfolding remove_when_due add_event pure
  remove_when_due-early this addr e t x w found early small =
      let exact : add32 w.system.game_time (sub32 x.fade_time w.system.game_time) ≡ x.fade_time =
        omega arith in
      let test : ltb w.system.game_time x.fade_time ≡ true = ground arith in
      bind-done (read_aura addr) _ w (read_aura-done addr w x found)
      ∙ bind-done game_time _ w (game_time-done w)
      ∙ rw test (
          bind-done (enqueue this _) _ w (enqueue-done this _ w)
          ∙ ap (λ time. done false (with_queue w time this)) exact)

  run_pre-dropped :
      (this : ℕ) (e : Event D) (s : SpellPart) (w : World D L)
      → (if has_flag e.event_type event_spell_cast
          then not (is_idle w.player w.system.game_time)
          else not (same_pointer w.player.casting_spell e.parent))
        ≡ true
      → run_pre env this e s w ≡ done true w
  unfolding run_pre get pure
  run_pre-dropped this e s w test = bind-done get _ w refl ∙ rw test refl

  run_post-dropped :
      (this : ℕ) (e : Event D) (w : World D L)
      → same_pointer w.player.casting_spell
          (if has_flag e.event_type event_spell_cast then some this else e.parent)
        ≡ false
      → run_post env this e w ≡ done true w
  unfolding run_post get pure when
  run_post-dropped this e w test =
      bind-done get _ w refl
      ∙ bind-done
          (when
            (same_pointer w.player.casting_spell
              (if has_flag e.event_type event_spell_cast then some this else e.parent))
            (post_action env this))
          _ w (rw test refl)

  post_flag :
      (t : ℕ)
      → ((t ≡ cast_pre) ⊎ (t ≡ cast_post)) ⊎ ((t ≡ channel_pre) ⊎ (t ≡ channel_post))
      → has_flag t event_pre ≡ false
      → has_flag t event_post ≡ true
  post_flag t (inl (inl e)) h = absurd (ground (arith, e))
  post_flag t (inl (inr e)) h = rw e refl
  post_flag t (inr (inl e)) h = absurd (ground (arith, e))
  post_flag t (inr (inr e)) h = rw e refl

  run_spell_event-dropped :
      (this : ℕ) (e : Event D) (s : SpellPart) (w : World D L)
      → find this w.events ≡ some e
      → e.body ≡ of_spell s
      → ((e.event_type ≡ cast_pre) ⊎ (e.event_type ≡ cast_post))
        ⊎ ((e.event_type ≡ channel_pre) ⊎ (e.event_type ≡ channel_post))
      → is_dropped w this e ≡ true
      → run_spell_event env this w ≡ done true w
  unfolding run_spell_event
  run_spell_event-dropped this e s w found body type h =
      bind-done (read_spell_event this) _ w (read_spell_event-done this w e s found body)
      ∙ (elim (Bool-cases (has_flag e.event_type event_pre)) [
        | inl pre ↦ rw pre (run_pre-dropped this e s w (ground (arith, h, pre)))
        | inr other ↦
            let post = post_flag e.event_type type other in
            rw (other, post) (run_post-dropped this e w (ground (arith, h, other)))
      ])

  -- The end of a cast, or an event of a channel.
  abbrev pub IsLater : Event D → Type 0
  IsLater e =
      (e.event_type ≡ cast_post)
      ⊎ (((p : ℕ) × (e.parent ≡ some p))
          × ((e.event_type ≡ channel_pre) ⊎ (e.event_type ≡ channel_post)))

  dropped_later :
      (w : World D L) (this : ℕ) (e : Event D)
      → w.player.casting_spell ≡ none
      → IsLater e
      → is_dropped w this e ≡ true
  unfolding same_pointer
  dropped_later w this e none_cast (inl t) = rw (t, none_cast) refl
  dropped_later w this e none_cast (inr ((p, h), inl t)) = rw (t, none_cast, h) refl
  dropped_later w this e none_cast (inr ((p, h), inr t)) = rw (t, none_cast, h) refl

  spell_type :
      (e : Event D)
      → IsLater e
      → ((e.event_type ≡ cast_pre) ⊎ (e.event_type ≡ cast_post))
        ⊎ ((e.event_type ≡ channel_pre) ⊎ (e.event_type ≡ channel_post))
  spell_type e (inl t) = inl (inr t)
  spell_type e (inr (p, t)) = inr t

  casting_spell-stop_casting : (p : Player D) → (stop_casting p).0.casting_spell ≡ none
  unfolding stop_casting
  casting_spell-stop_casting p = ground arith

  lua_stop_casting-done :
      (w : World D L)
      → w.has_player ≡ true
      → lua_stop_casting env [] w
        ≡ done (returned []) (record w { player = (stop_casting w.player).0 })
  unfolding lua_stop_casting update_player get modify pure ◌>>=◌
  lua_stop_casting-done w h =
      ap
        (λ b.
          (if b then (do update_player (λ p. (stop_casting p).0); push_nothing) else push_nothing)
            w)
        h

  -- After `StopCasting`, for a player that is there, the event for the end of a cast, and an event of a
  -- channel that has a parent, end without any effect, whatever cast they belong to.
  pub run_spell_event-stopped :
      (this : ℕ) (e : Event D) (s : SpellPart) (w : World D L)
      → find this w.events ≡ some e
      → e.body ≡ of_spell s
      → IsLater e
      → w.has_player ≡ true
      → (lua_stop_casting env [] >>= λ r. run_spell_event env this) w
        ≡ done true (record w { player = (stop_casting w.player).0 })
  run_spell_event-stopped this e s w found body later player =
      let v = record w { player = (stop_casting w.player).0 } in
      bind-done (lua_stop_casting env []) (λ r. run_spell_event env this) w
        (lua_stop_casting-done w player)
      ∙ run_spell_event-dropped this e s v found body (spell_type e later)
          (dropped_later v this e (casting_spell-stop_casting w.player) later)
