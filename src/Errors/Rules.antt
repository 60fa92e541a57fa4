-- ===== src/Errors/Rules.antt =====
-- Steps that raise an error of Lua only while the store is as it was: one rule for each way to build one.
use dpscalclua.Base.{◌≡◌, refl, ◌∙◌, Bool, true, false, List, Option, none, some, if◌then◌else◌}
use dpscalclua.Store.{Fault, Outcome, done, fault, M, pure, fail, get, or_fault, on_option, ◌>>=◌}
use dpscalclua.Script.{Push, LuaError, Reply, returned, raised}

abbrev pub Leads : {S A : Type 0} → (A → S → Type 0) → Outcome S A → Type 0
Leads Q (done a s) = Q a s
Leads Q (fault f) = Unit {0}

abbrev pub Untouched : {D S : Type 0} → S → Reply D → S → Type 0
Untouched w (returned l) s = Unit {0}
Untouched w (raised e) s = s ≡ w

-- A step that only reads.
pub record Reads {S A : Type 0} (m : M S A) : Type 0 where
  pub at : (s : S) → Leads (λ a t. t ≡ s) (m s)

-- A step that, from the store `w` or, once it is written to, from any store, raises errors only at `w`.
pub record Raises {D S : Type 0} (w : S) (written : Bool) (m : M S (Reply D)) : Type 0 where
  pub at : (s : S) → (written ≡ false → s ≡ w) → Leads (Untouched w) (m s)

module _ {S : Type 0} where
  pub Reads-get : Reads (get {S = S})
  unfolding get
  Reads-get = record { at = λ s. refl }

  pub Reads-pure : {A : Type 0} (a : A) → Reads {S = S} (pure a)
  unfolding pure
  Reads-pure a = record { at = λ s. refl }

  pub Reads-or_fault : {A : Type 0} (f : Fault) (o : Option A) → Reads {S = S} (or_fault f o)
  unfolding or_fault
  Reads-or_fault f none = record { at = λ s. tt }
  Reads-or_fault f (some a) = record { at = λ s. refl }

  Leads-moved :
      {B : Type 0} (s t : S) (o : Outcome S B)
      → t ≡ s
      → Leads (λ b u. u ≡ t) o
      → Leads (λ b u. u ≡ s) o
  Leads-moved s t (fault e) h g = tt
  Leads-moved s t (done b u) h g = g ∙ h

  Leads-read :
      {A B : Type 0} (s : S) (o : Outcome S A) (f : A → M S B)
      → Leads (λ a t. t ≡ s) o
      → ((a : A) → Reads (f a))
      → Leads (λ b t. t ≡ s) (elim o [ fault e ↦ fault e | done a t ↦ f a t ])
  Leads-read s (fault e) f h k = tt
  Leads-read s (done a t) f h k = Leads-moved s t (f a t) h ((k a).at t)

  pub Reads-bind :
      {A B : Type 0} (m : M S A) (f : A → M S B)
      → Reads m
      → ((a : A) → Reads (f a))
      → Reads (m >>= f)
  unfolding ◌>>=◌
  Reads-bind m f h k = record { at = λ s. Leads-read s (m s) f (h.at s) k }

module _ {D S : Type 0} {w : S} where
  pub Raises-returned : {written : Bool} (l : List (Push D)) → Raises w written (pure (returned l))
  unfolding pure
  Raises-returned l = record { at = λ s h. tt }

  pub Raises-raised : (e : LuaError) → Raises {D = D} w false (pure (raised e))
  unfolding pure
  Raises-raised e = record { at = λ s h. h refl }

  pub Raises-fail : {written : Bool} (f : Fault) → Raises {D = D} w written (fail f)
  unfolding fail
  Raises-fail f = record { at = λ s h. tt }

  pub Raises-or_fault : {written : Bool} (f : Fault) → Raises {D = D} w written (or_fault f none)
  unfolding or_fault
  Raises-or_fault f = record { at = λ s h. tt }

  Leads-write :
      {A : Type 0} (o : Outcome S A) (f : A → M S (Reply D))
      → ((a : A) → Raises w true (f a))
      → Leads (Untouched w) (elim o [ fault e ↦ fault e | done a t ↦ f a t ])
  Leads-write (fault e) f k = tt
  Leads-write (done a t) f k = (k a).at t λ e. absurd (cc e)

  module _ {written : Bool} where
    pub Raises-if :
        (b : Bool) (m n : M S (Reply D))
        → Raises w written m
        → Raises w written n
        → Raises w written (if b then m else n)
    Raises-if true m n h k = h
    Raises-if false m n h k = k

    pub Raises-option :
        {A : Type 0} (o : Option A) (m : M S (Reply D)) (f : A → M S (Reply D))
        → Raises w written m
        → ((a : A) → Raises w written (f a))
        → Raises w written (on_option o m f)
    unfolding on_option
    Raises-option none m f h k = h
    Raises-option (some a) m f h k = k a

    Leads-bind :
        {A : Type 0} (s : S) (o : Outcome S A) (f : A → M S (Reply D))
        → (written ≡ false → s ≡ w)
        → Leads (λ a t. t ≡ s) o
        → ((a : A) → Raises w written (f a))
        → Leads (Untouched w) (elim o [ fault e ↦ fault e | done a t ↦ f a t ])
    Leads-bind s (fault e) f h g k = tt
    Leads-bind s (done a t) f h g k = (k a).at t λ e. g ∙ h e

    pub Raises-read :
        {A : Type 0} (m : M S A) (f : A → M S (Reply D))
        → Reads m
        → ((a : A) → Raises w written (f a))
        → Raises w written (m >>= f)
    unfolding ◌>>=◌
    Raises-read m f g k = record { at = λ s h. Leads-bind s (m s) f h (g.at s) k }

    pub Raises-write :
        {A : Type 0} (m : M S A) (f : A → M S (Reply D))
        → ((a : A) → Raises w true (f a))
        → Raises w written (m >>= f)
    unfolding ◌>>=◌
    Raises-write m f k = record { at = λ s h. Leads-write (m s) f k }

pub ruleset raise_rules = (
  Reads-get, Reads-pure, Reads-or_fault, Reads-bind, Raises-returned, Raises-raised, Raises-fail,
  Raises-or_fault, Raises-if, Raises-option, Raises-read, Raises-write,
)
