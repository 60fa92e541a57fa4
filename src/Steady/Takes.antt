-- ===== src/Steady/Takes.antt =====
-- Steps that lead from one property of the store to another, if no fault stops them: one rule for each
-- way to build a step.
use dpscalclua.Base.{Bool, true, false, Option, none, some, if◌then◌else◌}
use dpscalclua.Store.{
  Fault, Outcome, done, fault, M, pure, get, modify, or_fault, when, on_option, ◌>>=◌,
}
use dpscalclua.Errors.Rules.{Leads}

pub record Takes {S A : Type 0} (P : S → Type 0) (m : M S A) (Q : A → S → Type 0) : Type 0 where
  pub at : (s : S) → P s → Leads Q (m s)

Leads-after :
    {S A B : Type 0} (R : B → S → Type 0) {Q : A → S → Type 0} (o : Outcome S B) (f : B → M S A)
    → Leads R o
    → ((b : B) → Takes (R b) (f b) Q)
    → Leads Q (elim o [ fault e ↦ fault e | done b v ↦ f b v ])
Leads-after R (fault e) f h k = tt
Leads-after R (done b v) f h k = (k b).at v h

module _ {S : Type 0} {P : S → Type 0} where
  pub Takes-get : Takes P (get {S = S}) (λ s. P)
  unfolding get
  Takes-get = record { at = λ s h. h }

  pub Takes-modify :
      (Q : S → Type 0) (f : S → S) → ((s : S) → P s → Q (f s)) → Takes P (modify f) (λ u. Q)
  unfolding modify
  Takes-modify Q f h = record { at = h }

  pub Takes-when :
      (b : Bool) (m : M S (Unit {0})) → Takes P m (λ u. P) → Takes P (when b m) (λ u. P)
  unfolding when
  Takes-when true m h = record { at = λ s p. h.at s p }
  Takes-when false m h = record { at = λ s p. p }

  module _ {A : Type 0} where
    pub Takes-pure : (Q : A → S → Type 0) (a : A) → ((s : S) → P s → Q a s) → Takes P (pure a) Q
    unfolding pure
    Takes-pure Q a h = record { at = h }

    pub Takes-or_fault : (f : Fault) (o : Option A) → Takes P (or_fault f o) (λ a. P)
    unfolding or_fault
    Takes-or_fault f none = record { at = λ s p. tt }
    Takes-or_fault f (some a) = record { at = λ s p. p }

    module _ {Q : A → S → Type 0} where
      pub Takes-if :
          (b : Bool) (m n : M S A) → Takes P m Q → Takes P n Q → Takes P (if b then m else n) Q
      Takes-if true m n h k = h
      Takes-if false m n h k = k

      module _ {B : Type 0} where
        pub Takes-option :
            (o : Option B) (m : M S A) (f : B → M S A)
            → Takes P m Q
            → ((b : B) → Takes P (f b) Q)
            → Takes P (on_option o m f) Q
        unfolding on_option
        Takes-option none m f h k = h
        Takes-option (some b) m f h k = k b

        pub Takes-bind :
            (R : B → S → Type 0) (m : M S B) (f : B → M S A)
            → Takes P m R
            → ((b : B) → Takes (R b) (f b) Q)
            → Takes P (m >>= f) Q
        unfolding ◌>>=◌
        Takes-bind R m f h k = record { at = λ s p. Leads-after R (m s) f (h.at s p) k }
