-- ===== src/Safety/Meets.antt =====
-- Steps that lead from one property of the store to another, whatever fault of the allowed kinds may
-- stop them: one rule for each way to build a step.
use dpscalclua.Base.{◌≡◌, refl, Bool, true, false, Option, none, some, if◌then◌else◌}
use dpscalclua.Store.{
  Fault, dangling_event, dangling_aura, dangling_creature, null_pointer, bad_event,
  division_by_zero, bad_index, overflow, Outcome, done, fault, M, pure, fail, get, modify, or_fault,
  when, on_option, ◌>>=◌,
}

-- Every fault but those about events.
abbrev pub IsAllowed : Fault → Type 0
IsAllowed (dangling_event a) = ⊥
IsAllowed bad_event = ⊥
IsAllowed (dangling_aura a) = Unit {0}
IsAllowed (dangling_creature a) = Unit {0}
IsAllowed null_pointer = Unit {0}
IsAllowed division_by_zero = Unit {0}
IsAllowed bad_index = Unit {0}
IsAllowed overflow = Unit {0}

abbrev pub Holds : {S A : Type 0} → (A → S → Type 0) → Outcome S A → Type 0
Holds Q (done a s) = Q a s
Holds Q (fault f) = IsAllowed f

pub record Meets {S A : Type 0} (P : S → Type 0) (m : M S A) (Q : A → S → Type 0) : Type 0 where
  pub at : (s : S) → P s → Holds Q (m s)

abbrev pub Keeps : {S A : Type 0} → (S → Type 0) → M S A → Type 0
Keeps P m = Meets P m (λ _. P)

module _ {S : Type 0} {P : S → Type 0} where
  pub Meets-pure :
      {A : Type 0} (Q : A → S → Type 0) (a : A) → ((s : S) → P s → Q a s) → Meets P (pure a) Q
  unfolding pure
  Meets-pure Q a h = record { at = h }

  pub Keeps-pure : {A : Type 0} (a : A) → Keeps P (pure a)
  unfolding pure
  Keeps-pure a = record { at = λ s h. h }

  pub Keeps-fail : {A : Type 0} (f : Fault) → IsAllowed f → Keeps P (fail {A = A} f)
  unfolding fail
  Keeps-fail f h = record { at = λ s _. h }

  pub Keeps-get : Keeps P (get {S = S})
  unfolding get
  Keeps-get = record { at = λ s h. h }

  pub Keeps-or_fault :
      {A : Type 0} (f : Fault) (o : Option A) → IsAllowed f → Keeps P (or_fault f o)
  unfolding or_fault
  Keeps-or_fault f none h = record { at = λ s _. h }
  Keeps-or_fault f (some a) h = record { at = λ s h. h }

  pub Keeps-modify : (f : S → S) → ((s : S) → P s → P (f s)) → Keeps P (modify f)
  unfolding modify
  Keeps-modify f h = record { at = h }

  pub Keeps-when : (b : Bool) (m : M S (Unit {0})) → Keeps P m → Keeps P (when b m)
  unfolding when
  Keeps-when true m k = record { at = λ s h. k.at s h }
  Keeps-when false m k = record { at = λ s h. h }

  module _ {A : Type 0} {Q : A → S → Type 0} where
    pub Meets-if :
        (b : Bool) (m n : M S A)
        → (b ≡ true → Meets P m Q)
        → (b ≡ false → Meets P n Q)
        → Meets P (if b then m else n) Q
    Meets-if true m n km kn = km refl
    Meets-if false m n km kn = kn refl

    pub Meets-option :
        {B : Type 0} (o : Option B) (m : M S A) (f : B → M S A)
        → Meets P m Q
        → ((b : B) → o ≡ some b → Meets P (f b) Q)
        → Meets P (on_option o m f) Q
    unfolding on_option
    Meets-option none m f km kf = km
    Meets-option (some b) m f km kf = kf b refl

Holds-bind :
    {S A B : Type 0} (R : A → S → Type 0) (Q : B → S → Type 0) (o : Outcome S A) (f : A → M S B)
    → Holds R o
    → ((a : A) → Meets (R a) (f a) Q)
    → Holds Q (elim o [ fault e ↦ fault e | done a s' ↦ f a s' ])
Holds-bind R Q (done a s) f h k = (k a).at s h
Holds-bind R Q (fault e) f h k = h

module _ {S A B : Type 0} {P : S → Type 0} (R : A → S → Type 0) {Q : B → S → Type 0} where
  pub Meets-bind :
      (m : M S A) (f : A → M S B)
      → Meets P m R
      → ((a : A) → Meets (R a) (f a) Q)
      → Meets P (m >>= f) Q
  unfolding ◌>>=◌
  Meets-bind m f km kf = record { at = λ s h. Holds-bind R Q (m s) f (km.at s h) kf }

module _ {S A B : Type 0} {P : S → Type 0} {Q : B → S → Type 0} where
  -- The first step keeps `P`.
  pub Keeps-bind :
      (m : M S A) (f : A → M S B) → Keeps P m → ((a : A) → Meets P (f a) Q) → Meets P (m >>= f) Q
  Keeps-bind m f km kf = Meets-bind (λ _. P) m f km kf

pub ruleset keeps_rules = (
  Keeps-pure, Keeps-fail, Keeps-get, Keeps-or_fault, Keeps-when, Meets-if, Meets-option, Keeps-bind,
)
