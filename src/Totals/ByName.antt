-- ===== src/Totals/ByName.antt =====
-- The sums of `CDefaultReporter` for each single spell, when `strcmp` orders the names.
use dpscalclua.Base.{
  All, ℕ, ◌+◌, ◌%◌, ◌≡◌, ◌≢◌, refl, sym, ap, String, Bool, true, false, ◌&&◌, List, [], ◌∷◌, Option,
  none, some, inl, inr, arith, word_mod, add32, if◌then◌else◌, Bool-cases,
}
use text.Mathlib.Text.{◌==◌ as str_eq}
use text.Mathlib.TextEquality.{eq_iff}
use dpscalclua.Store.{DamageInfo}
use dpscalclua.Reporter.{DamageMap, amount, no_totals, add_amount, add_info, totals}

-- What the map needs of `strcmp(...) < 0`: a strict order in which any two names are compared.
pub record IsOrder (less : String → String → Bool) : Type 0 where
  pub irreflexive : (a : String) → less a a ≡ false
  pub transitive : (a b c : String) → less a b ≡ true → less b c ≡ true → less a c ≡ true
  pub connected : (a b : String) → a ≢ b → less a b ≡ false → less b a ≡ true

-- A sum with one more part.
abbrev pub joined : ℕ → Option ℕ → ℕ
joined part none = part
joined part (some n) = part + n

-- What the reports with a name have in sum; `none` if there is none.
abbrev pub sum_by : (DamageInfo → ℕ) → (DamageInfo → Bool) → List DamageInfo → Option ℕ
sum_by part holds [] = none
sum_by part holds (i ∷ v) =
    if holds i then some (joined (part i) (sum_by part holds v)) else sum_by part holds v

abbrev pub modulo : Option ℕ → Option ℕ
modulo none = none
modulo (some n) = some (n % word_mod)

-- The entry of a name after `v` is added to it.
abbrev grown : Option ℕ → ℕ → ℕ
grown none v = v
grown (some u) v = add32 u v

grown-joined :
    (a o : Option ℕ) (part : ℕ)
    → modulo a ≡ modulo o
    → grown a part % word_mod ≡ joined part o % word_mod
grown-joined none none part h = refl
grown-joined none (some k) part h = absurd (cc h)
grown-joined (some u) none part h = absurd (cc h)
grown-joined (some u) (some k) part h = let same : u % word_mod ≡ k % word_mod = cc h in omega arith

abbrev pub named : String → DamageInfo → Bool
named name i = str_eq i.spell_name name

abbrev pub named_crit : String → DamageInfo → Bool
named_crit name i = str_eq i.spell_name name && i.is_crit

module _ (less : String → String → Bool) where
  abbrev Above : String → DamageMap → Type 0
  Above name m = All (λ (e : String × ℕ). less name e.0 ≡ true) m

  abbrev pub IsAscending : DamageMap → Type 0
  IsAscending [] = Unit {0}
  IsAscending ((n, v) ∷ m) = Above n m × IsAscending m

  module _ (order : IsOrder less) where
    amount-Above : (name : String) (m : DamageMap) → Above name m → amount name m ≡ none
    unfolding amount
    amount-Above name [] h = refl
    amount-Above name ((n, v) ∷ m) h =
        ground (arith, eq_iff n name, order.irreflexive name, amount-Above name m h.1)

    Above-mono : (a b : String) (m : DamageMap) → less a b ≡ true → Above b m → Above a m
    Above-mono a b [] h g = tt
    Above-mono a b ((n, v) ∷ m) h g = (order.transitive a b n h g.0, Above-mono a b m h g.1)

    Above-add_amount :
        (a name : String) (v : ℕ) (m : DamageMap)
        → less a name ≡ true
        → Above a m
        → Above a (add_amount less name v m)
    unfolding add_amount
    Above-add_amount a name v [] h g = (h, tt)
    Above-add_amount a name v ((n, u) ∷ m) h g =
        let rest = Above-add_amount a name v m h g.1 in
        elim (Bool-cases (str_eq n name)) [
          | inl e ↦ rw e g
          | inr e ↦ elim (Bool-cases (less name n)) [
            | inl l ↦ rw (e, l) (h, g)
            | inr l ↦ rw (e, l) (g.0, rest)
          ]
        ]

    IsAscending-add_amount :
        (name : String) (v : ℕ) (m : DamageMap)
        → IsAscending m
        → IsAscending (add_amount less name v m)
    unfolding add_amount
    IsAscending-add_amount name v [] h = (tt, tt)
    IsAscending-add_amount name v ((n, u) ∷ m) h = elim (Bool-cases (str_eq n name)) [
      | inl e ↦ rw e h
      | inr e ↦ elim (Bool-cases (less name n)) [
        | inl l ↦ rw (e, l) ((l, Above-mono name n m l h.0), h)
        | inr l ↦
            rw (e, l)
              (
                Above-add_amount n name v m
                    (order.connected name n (λ p. cc (e, (eq_iff n name).1 (sym p))) l) h.0,
                IsAscending-add_amount name v m h.1,
              )
      ]
    ]

    amount-add_amount :
        (j name : String) (v : ℕ) (m : DamageMap)
        → IsAscending m
        → amount j (add_amount less name v m)
          ≡ (if str_eq name j then some (grown (amount name m) v) else amount j m)
    unfolding amount add_amount
    amount-add_amount j name v [] h = refl
    amount-add_amount j name v ((n, u) ∷ m) h = elim (Bool-cases (str_eq n name)) [
      | inl e ↦ rw e (ground (arith, eq_iff n name, eq_iff n j, eq_iff name j))
      | inr e ↦ elim (Bool-cases (less name n)) [
        | inl l ↦ rw (e, l, amount-Above name m (Above-mono name n m l h.0)) refl
        | inr l ↦
            rw (e, l, amount-add_amount j name v m h.1)
              (ground (arith, eq_iff n name, eq_iff n j, eq_iff name j))
      ]
    ]

    amount_step :
        (name n : String) (part : ℕ) (m : DamageMap) (o : Option ℕ)
        → IsAscending m
        → modulo (amount name m) ≡ modulo o
        → modulo (amount name (add_amount less n part m))
          ≡ modulo (if str_eq n name then some (joined part o) else o)
    amount_step name n part m o h e =
        rw (amount-add_amount name n part m h) (elim (Bool-cases (str_eq n name)) [
          | inl g ↦
              rw (g, (eq_iff n name).0 g)
                (ap (λ (k : ℕ). some k) (grown-joined (amount name m) o part e))
          | inr g ↦ rw g e
        ])

    pub IsAscending-totals :
        (v : List DamageInfo)
        → IsAscending (totals less v).damage
          × IsAscending (totals less v).count
          × IsAscending (totals less v).crit_count
    unfolding totals add_info no_totals
    IsAscending-totals [] = (tt, tt, tt)
    IsAscending-totals (i ∷ v) =
        let h = IsAscending-totals v in
        (
          IsAscending-add_amount i.spell_name i.damage _ h.0,
          IsAscending-add_amount i.spell_name 1 _ h.1,
          by_crit i.is_crit i.spell_name (totals less v).crit_count h.2,
        )
      where
        by_crit :
            (crit : Bool) (name : String) (m : DamageMap)
            → IsAscending m
            → IsAscending (if crit then add_amount less name 1 m else m)
        by_crit true name m h = IsAscending-add_amount name 1 m h
        by_crit false name m h = h

    crit_step :
        (crit : Bool) (name n : String) (m : DamageMap) (o : Option ℕ)
        → IsAscending m
        → modulo (amount name m) ≡ modulo o
        → modulo (amount name (if crit then add_amount less n 1 m else m))
          ≡ modulo (if str_eq n name && crit then some (joined 1 o) else o)
    crit_step true name n m o h e = ground (arith, amount_step name n 1 m o h e)
    crit_step false name n m o h e = ground (arith, e)

    -- When `strcmp` orders the names: the entry of a name is, modulo 2 ^ 32, the damage of the reports with
    -- this name, their number, and the number of crits among them; and there is an entry exactly if there
    -- is such a report.
    pub amount-totals :
        (name : String) (v : List DamageInfo)
        → (modulo (amount name (totals less v).damage)
            ≡ modulo (sum_by (λ i. i.damage) (named name) v))
          × (modulo (amount name (totals less v).count) ≡ modulo (sum_by (λ i. 1) (named name) v))
          × (modulo (amount name (totals less v).crit_count)
              ≡ modulo (sum_by (λ i. 1) (named_crit name) v))
    unfolding totals add_info no_totals amount
    amount-totals name [] = (refl, refl, refl)
    amount-totals name (i ∷ v) =
        let (damage, count, crits) = amount-totals name v in
        let h = IsAscending-totals v in
        (
          amount_step name i.spell_name i.damage _ _ h.0 damage,
          amount_step name i.spell_name 1 _ _ h.1 count,
          crit_step i.is_crit name i.spell_name _ _ h.2 crits,
        )
