-- ===== src/Processed.antt =====
-- What the result of `ProcessEvent` says (`DPSCalc/EventSystem.cpp`).
use dpscalclua.Base.{
  ℕ, zero, suc, ◌≡◌, ◌≢◌, refl, Bool, true, false, ◌⊎◌, inl, inr, Option, none, some, List, subst,
}
use dpscalclua.Double.{Double}
use dpscalclua.EventSystem.{advance}
use dpscalclua.Store.{World, Outcome, M, done, fault, pure, get, modify, on_option, ◌>>=◌}
use dpscalclua.Script.{Env}
use dpscalclua.Simulation.{due, set_system, process_entry, process_event}

module _ {S A B : Type 0} where
  -- The two parts of a run that has ended.
  pub bind-inv :
      (m : M S A) (f : A → M S B) (s t : S) (b : B)
      → (m >>= f) s ≡ done b t
      → (a : A) × (u : S) × (m s ≡ done a u) × (f a u ≡ done b t)
  unfolding ◌>>=◌
  bind-inv m f s t b h = by_outcome (m s) refl h
    where
      by_outcome :
          (o : Outcome S A)
          → m s ≡ o
          → (elim o [ fault e ↦ fault e | done a u ↦ f a u ]) ≡ done b t
          → (a : A) × (u : S) × (m s ≡ done a u) × (f a u ≡ done b t)
      by_outcome (done a u) e h = (a, u, e, h)
      by_outcome (fault x) e h = absurd (cc h)

  pub option-inv :
      (o : Option A) (m : M S B) (f : A → M S B) (s : S) (r : Outcome S B)
      → on_option o m f s ≡ r
      → ((o ≡ none) × (m s ≡ r)) ⊎ ((a : A) × (o ≡ some a) × (f a s ≡ r))
  unfolding on_option
  option-inv none m f s r h = inl (refl, h)
  option-inv (some a) m f s r h = inr (a, refl, h)

-- The contract: true, if something was due and nothing is any more; false, if nothing was due and the
-- clock has moved.
abbrev pub IsProcessed : {D L : Type 0} → ℕ → World D L → Bool → World D L → Type 0
IsProcessed next w true v = (due w.system ≢ none) × (due v.system ≡ none)
IsProcessed next w false v = (due w.system ≡ none) × (v ≡ set_system (λ s. advance s next) w)

module _ {D L : Type 0} where
  clock_moved :
      (next : ℕ) (w v : World D L) (b : Bool)
      → due w.system ≡ none
      → done (some false) (set_system (λ s. advance s next) w) ≡ done (some b) v
      → IsProcessed next w b v
  clock_moved next w v true e h = absurd (cc h)
  clock_moved next w v false e h = (e, cc h)

  settled :
      (next : ℕ) (w u v : World D L) (b : Bool) (x : ℕ × List ℕ)
      → due w.system ≡ some x
      → due u.system ≡ none
      → done (some true) u ≡ done (some b) v
      → IsProcessed next w b v
  settled next w u v true x e n h =
      let same : u ≡ v = cc h in (λ g. cc, subst (λ (z : World D L). due z.system ≡ none) same n)
  settled next w u v false x e n h = absurd (cc h)

  goes_on :
      (next : ℕ) (w u v : World D L) (b : Bool) (x y : ℕ × List ℕ)
      → due w.system ≡ some x
      → due u.system ≡ some y
      → IsProcessed next u b v
      → IsProcessed next w b v
  goes_on next w u v true x y e g h = (λ n. cc, h.1)
  goes_on next w u v false x y e g h = absurd (cc (h.0))

module _ {D V L : Type 0} ⦃d : Double D⦄ (env : Env D V L) where
  -- A call of `ProcessEvent` that ends with true had something due and leaves nothing due; one that ends
  -- with false had nothing due and only moved the clock.
  pub process_event-IsProcessed :
      (fuel next : ℕ) (w v : World D L) (b : Bool)
      → process_event env fuel next w ≡ done (some b) v
      → IsProcessed next w b v
  unfolding process_event pure get modify ◌>>=◌
  process_event-IsProcessed zero next w v b h = absurd (cc h)
  process_event-IsProcessed (suc fuel) next w v b h = elim (option-inv (due w.system) _ _ w _ h) [
    | inl (e, g) ↦ clock_moved next w v b e g
    | inr (x, e, g) ↦
        let rest : Unit {0} → M (World D L) (Option Bool) = λ t. get >>= λ z.
        on_option (due z.system) (pure (some true)) λ y. process_event env fuel next in
        let (t, u, p, q) = bind-inv (process_entry env x.0 x.1) rest w v (some b) g in
        elim (option-inv (due u.system) (pure (some true)) (λ y. process_event env fuel next) u _
          q) [
            | inl (n, k) ↦ settled next w u v b x e n k
            | inr (y, m, k) ↦
                goes_on next w u v b x y e m (process_event-IsProcessed fuel next u v b k)
          ]
  ]
