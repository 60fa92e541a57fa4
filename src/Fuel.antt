-- ===== src/Fuel.antt =====
-- The fuel of `ProcessEvent` and the rounds of `Perform` only bound the run: more of them change nothing.
use dpscalclua.Base.{
  ℕ, zero, suc, ◌+◌, ◌≡◌, ◌≢◌, subst, Bool, true, false, not, Option, none, some, arith,
  if◌then◌else◌,
}
use dpscalclua.Double.{Double}
use dpscalclua.Store.{World, Outcome, M, done, fault, pure, on_option, ◌>>=◌}
use dpscalclua.Script.{Env}
use dpscalclua.Simulation.{process_event, running, round, main_loop}

-- A run of `m` that ends with `r` is a run of `n` too.
record Agrees {S A : Type 0} (r : A) (m n : M S A) : Type 0 where
  at : (s v : S) → m s ≡ done r v → n s ≡ done r v

module _ {S A : Type 0} {r : A} where
  Agrees-refl : (m : M S A) → Agrees r m m
  Agrees-refl m = record { at = λ s v h. h }

  Agrees-pure : (a : A) (n : M S A) → a ≢ r → Agrees r (pure a) n
  unfolding pure
  Agrees-pure a n ne = record { at = λ s v h. absurd (ne (cc h)) }

  Agrees-if :
      (b : Bool) (m n m' n' : M S A)
      → Agrees r m m'
      → Agrees r n n'
      → Agrees r (if b then m else n) (if b then m' else n')
  Agrees-if true m n m' n' h k = h
  Agrees-if false m n m' n' h k = k

  module _ {B : Type 0} where
    Agrees-option :
        (o : Option B) (m n : M S A) (f g : B → M S A)
        → Agrees r m n
        → ((b : B) → Agrees r (f b) (g b))
        → Agrees r (on_option o m f) (on_option o n g)
    unfolding on_option
    Agrees-option none m n f g h k = h
    Agrees-option (some b) m n f g h k = k b

    Agrees-bind :
        (m : M S B) (f g : B → M S A)
        → ((b : B) → Agrees r (f b) (g b))
        → Agrees r (m >>= f) (m >>= g)
    unfolding ◌>>=◌
    Agrees-bind m f g h = record { at = λ s v. by_outcome (m s) v }
      where
        by_outcome :
            (o : Outcome S B) (v : S)
            → (elim o [ fault e ↦ fault e | done a s' ↦ f a s' ]) ≡ done r v
            → (elim o [ fault e ↦ fault e | done a s' ↦ g a s' ]) ≡ done r v
        by_outcome (done a s') v e = (h a).at s' v e
        by_outcome (fault x) v e = absurd (cc e)

module _ {D V L : Type 0} ⦃d : Double D⦄ (env : Env D V L) where
  process_event-Agrees :
      (b : Bool) (fuel more next : ℕ)
      → Agrees (some b) (process_event {L = L} env fuel next) (process_event env (fuel + more) next)
  unfolding process_event
  process_event-Agrees b zero more next = Agrees-pure none _ λ e. cc e
  process_event-Agrees b (suc fuel) more next =
      let e : suc (fuel + more) ≡ suc fuel + more = omega arith in
      subst (λ n. Agrees (some b) (process_event env (suc fuel) next) (process_event env n next)) e
        (Agrees-bind _ _ _ λ w. Agrees-option _ _ _ _ _ (Agrees-refl _) λ x. Agrees-bind _ _ _ λ u.
          Agrees-bind _ _ _
            λ v. Agrees-option _ _ _ _ _ (Agrees-refl _) λ y. process_event-Agrees b fuel more next)

  -- A call of `ProcessEvent` that ends with some fuel ends with more of it in the same way.
  pub process_event-more_fuel :
      (b : Bool) (fuel more next : ℕ) (w v : World D L)
      → process_event env fuel next w ≡ done (some b) v
      → process_event env (fuel + more) next w ≡ done (some b) v
  process_event-more_fuel b fuel more next w v = (process_event-Agrees b fuel more next).at w v

  main_loop-Agrees :
      (rounds more fuel : ℕ)
      → Agrees true (main_loop {L = L} env rounds fuel) (main_loop env (rounds + more) fuel)
  unfolding main_loop
  main_loop-Agrees zero more fuel = Agrees-pure false _ λ e. cc e
  main_loop-Agrees (suc rounds) more fuel =
      let e : suc (rounds + more) ≡ suc rounds + more = omega arith in
      subst (λ n. Agrees true (main_loop env (suc rounds) fuel) (main_loop env n fuel)) e
        (Agrees-bind _ _ _ λ w.
          Agrees-if (not (running env w)) (pure true) _ (pure true) _ (Agrees-refl _) (
            Agrees-bind (round env fuel) _ _ λ r.
              Agrees-option r (pure false) (pure false) _ _ (Agrees-refl _)
                λ b. main_loop-Agrees rounds more fuel))

  -- A loop of `Perform` that comes to its end in some rounds comes to it in more rounds in the same way.
  pub main_loop-more_rounds :
      (rounds more fuel : ℕ) (w v : World D L)
      → main_loop env rounds fuel w ≡ done true v
      → main_loop env (rounds + more) fuel w ≡ done true v
  main_loop-more_rounds rounds more fuel w v = (main_loop-Agrees rounds more fuel).at w v
