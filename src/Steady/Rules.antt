-- ===== src/Steady/Rules.antt =====
-- Steps that leave the clock alone and keep the damage counter right: one rule for each way to build one.
use dpscalclua.Base.{
  All, [], ◌∷◌, ◌++◌, ℕ, ◌%◌, word_mod, ap, sym, subst, List, ◌≡◌, refl, ◌∙◌, Bool, true, false,
  Option, none, some, if◌then◌else◌,
}
use mathlib.Core.List.{append_assoc}
use dpscalclua.Map.{Map}
use dpscalclua.Queue.Shape.{IsOrdered}
use dpscalclua.Totals.{damage_of, IsAccounted, has_reports}
use dpscalclua.Store.{
  DamageInfo, InfoRow, World, Fault, Outcome, done, fault, M, pure, fail, get, modify, or_fault,
  when, on_option, ◌>>=◌,
}

abbrev pub now : {D L : Type 0} → World D L → ℕ
now w = w.system.game_time

-- What the reporter alone writes, and whether it does.
pub record Output : Type 0 where
  pub save : Bool
  pub table : List InfoRow
  pub combat : List ℕ
  pub lite : List ℕ

abbrev pub output : {D L : Type 0} → World D L → Output
output w = record {
  save = w.is_save;
  table = w.damage_info;
  combat = w.combat_log;
  lite = w.lite_log;
}

-- What an event or a script may change only by a report or by a new event.
pub record Facts : Type 0 where
  pub clock : ℕ
  pub damage : ℕ
  pub log : Option (List DamageInfo)
  pub queue : Map (List ℕ)
  pub written : Output

abbrev pub facts : {D L : Type 0} → World D L → Facts
facts w = record {
  clock = now w;
  damage = w.damage_counter;
  log = w.reports;
  queue = w.system.event_map;
  written = output w;
}

-- The later log has the earlier one, and before it reports of the time `t`.
abbrev pub IsStamped : ℕ → Option (List DamageInfo) → Option (List DamageInfo) → Type 0
IsStamped t old new =
    (l : List DamageInfo)
    → old ≡ some l
    → (added : List DamageInfo) × (new ≡ some (added ++ l)) × All (λ i. i.game_time ≡ t) added

-- The clock is the same, the damage counter is still the sum of the reports if it was, there is a reporter
-- if there was one, the log has only grown, the queue is still in order if it was, and the output is the same.
pub record Grows {D L : Type 0} (w v : World D L) : Type 0 where
  pub steady : now v ≡ now w
  pub counted : IsAccounted w → IsAccounted v
  pub detailed : has_reports v ≡ has_reports w
  pub stamped : IsStamped (now w) w.reports v.reports
  pub ordered : IsOrdered w.system.event_map → IsOrdered v.system.event_map
  pub listed : output v ≡ output w

abbrev pub Shows : {D L A : Type 0} → World D L → Outcome (World D L) A → Type 0
Shows w (done a v) = Grows w v
Shows w (fault f) = Unit {0}

pub record Stays {D L A : Type 0} (m : M (World D L) A) : Type 0 where
  pub at : (w : World D L) → Shows w (m w)

All-append : {A : Type 0} (P : A → Type 0) (a b : List A) → All P a → All P b → All P (a ++ b)
All-append P [] b h g = g
All-append P (x ∷ a) b h g = (h.0, All-append P a b h.1 g)

pub IsStamped-trans :
    {t u : ℕ} {a b c : Option (List DamageInfo)}
    → u ≡ t
    → IsStamped t a b
    → IsStamped u b c
    → IsStamped t a c
IsStamped-trans same h g l e =
    let (first, p, all) = h l e in
    let (later, q, more) = g (first ++ l) p in
    (
      later ++ first,
      rw (append_assoc later first l) q,
      All-append (λ i. i.game_time ≡ _) later first
          (subst (λ k. All (λ (i : DamageInfo). i.game_time ≡ k) later) same more) all,
    )

module _ {D L : Type 0} where
  pub Grows-refl : (w : World D L) → Grows w w
  Grows-refl w = record {
    steady = refl;
    counted = λ c. c;
    detailed = refl;
    stamped = λ l e. ([], e, tt);
    ordered = λ h. h;
    listed = refl;
  }

  pub Grows-facts : (w v : World D L) → facts v ≡ facts w → Grows w v
  Grows-facts w v e = record {
    steady = ap (λ (x : Facts). x.clock) e;
    counted = λ c.
        subst
          (λ (x : Facts).
            (l : List DamageInfo) → x.log ≡ some l → x.damage ≡ damage_of l % word_mod)
          (sym e) c;
    detailed =
        ap
          (λ (x : Facts).
            let log : Option (List DamageInfo) = x.log in
            elim log as (λ o. Bool) [ none ↦ false | some v ↦ true ])
          e;
    stamped = λ l g. ([], ap (λ (x : Facts). x.log) e ∙ g, tt);
    ordered = λ h. subst (λ (x : Facts). IsOrdered x.queue) (sym e) h;
    listed = ap (λ (x : Facts). x.written) e;
  }

  pub Stays-get : Stays (get {S = World D L})
  unfolding get
  Stays-get = record { at = Grows-refl }

  pub Stays-modify :
      (f : World D L → World D L) → ((w : World D L) → facts (f w) ≡ facts w) → Stays (modify f)
  unfolding modify
  Stays-modify f h = record { at = λ w. Grows-facts w (f w) (h w) }

  pub Stays-when : (b : Bool) (m : M (World D L) (Unit {0})) → Stays m → Stays (when b m)
  unfolding when
  Stays-when true m h = record { at = λ w. h.at w }
  Stays-when false m h = record { at = Grows-refl }

module _ {D L A : Type 0} where
  pub Stays-pure : (a : A) → Stays {D = D} {L = L} (pure a)
  unfolding pure
  Stays-pure a = record { at = Grows-refl }

  pub Stays-fail : (f : Fault) → Stays {D = D} {L = L} {A = A} (fail f)
  unfolding fail
  Stays-fail f = record { at = λ w. tt }

  pub Stays-or_fault : (f : Fault) (o : Option A) → Stays {D = D} {L = L} (or_fault f o)
  unfolding or_fault
  Stays-or_fault f none = record { at = λ w. tt }
  Stays-or_fault f (some a) = record { at = Grows-refl }

  pub Stays-if : (b : Bool) (m n : M (World D L) A) → Stays m → Stays n → Stays (if b then m else n)
  Stays-if true m n h k = h
  Stays-if false m n h k = k

  pub Shows-then : (w v : World D L) (o : Outcome (World D L) A) → Grows w v → Shows v o → Shows w o
  Shows-then w v (done a u) g h = record {
    steady = h.steady ∙ g.steady;
    counted = λ c. h.counted (g.counted c);
    detailed = h.detailed ∙ g.detailed;
    stamped = IsStamped-trans g.steady g.stamped h.stamped;
    ordered = λ o. h.ordered (g.ordered o);
    listed = h.listed ∙ g.listed;
  }
  Shows-then w v (fault f) g h = tt

  module _ {B : Type 0} where
    pub Stays-option :
        (o : Option B) (m : M (World D L) A) (f : B → M (World D L) A)
        → Stays m
        → ((b : B) → Stays (f b))
        → Stays (on_option o m f)
    unfolding on_option
    Stays-option none m f h k = h
    Stays-option (some b) m f h k = k b

    Shows-bind :
        (w : World D L) (o : Outcome (World D L) B) (f : B → M (World D L) A)
        → Shows w o
        → ((b : B) → Stays (f b))
        → Shows w (elim o [ fault e ↦ fault e | done b v ↦ f b v ])
    Shows-bind w (fault e) f h k = tt
    Shows-bind w (done b v) f h k = Shows-then w v (f b v) h ((k b).at v)

    pub Stays-bind :
        (m : M (World D L) B) (f : B → M (World D L) A)
        → Stays m
        → ((b : B) → Stays (f b))
        → Stays (m >>= f)
    unfolding ◌>>=◌
    Stays-bind m f h k = record { at = λ w. Shows-bind w (m w) f (h.at w) k }

pub ruleset stay_rules = (
  Stays-get, Stays-modify, Stays-when, Stays-pure, Stays-fail, Stays-or_fault, Stays-if,
  Stays-option, Stays-bind,
)
