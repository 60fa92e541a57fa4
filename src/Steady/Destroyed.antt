-- ===== src/Steady/Destroyed.antt =====
-- What the end of `Perform` and the destructors (`DPSCalc/EventSystem.cpp`, `DPSCalc/Reporter.cpp`) leave.
use dpscalclua.Base.{
  ℕ, ◌≡◌, refl, subst, String, Bool, true, false, List, [], ◌∷◌, Option, none, some,
}
use dpscalclua.Double.{Double}
use dpscalclua.Map.{Map}
use dpscalclua.Store.{
  DamageInfo, InfoRow, World, M, bad_index, pure, get, modify, or_fault, when, on_option, ◌>>=◌,
  ◌>>◌,
}
use dpscalclua.Script.{Env}
use dpscalclua.Heap.{read_event, delete_event}
use dpscalclua.Loading.{Code}
use dpscalclua.Reporter.{totals, rows}
use dpscalclua.Reporter.Object.{write_logs, delete_reporter}
use dpscalclua.Calculation.{
  delete_all, delete_entries, delete_event_system, lua_clean_up, tear_down,
}
use dpscalclua.Errors.Rules.{Leads}
use dpscalclua.Steady.Rules.{now, Output, output}
use dpscalclua.Steady.Written.{LeftBy}
use dpscalclua.Steady.Takes.{Takes, Takes-get, Takes-modify, Takes-or_fault, Takes-pure, Takes-bind}

-- What the result and the output come from.
pub record Facts : Type 0 where
  pub clock : ℕ
  pub damage : ℕ
  pub log : Option (List DamageInfo)
  pub written : Output

abbrev pub facts : {D L : Type 0} → World D L → Facts
facts w = record { clock = now w; damage = w.damage_counter; log = w.reports; written = output w }

-- The destructor of the queue deletes events only.
abbrev Same : {D L A : Type 0} → Facts → M (World D L) A → Type 0
Same x m = Takes (λ w. facts w ≡ x) m (λ a w. facts w ≡ x)

module _ {D L : Type 0} {x : Facts} where
  Same-delete_event : (a : ℕ) → Same {D = D} {L = L} x (delete_event a)
  unfolding delete_event read_event
  Same-delete_event a =
      Takes-bind (λ e w. facts w ≡ x) _ _
        (Takes-bind (λ v w. facts w ≡ x) _ _ Takes-get λ v. Takes-or_fault _ _)
        λ e. Takes-modify _ _ λ w h. h

  Same-delete_all : (l : List ℕ) → Same {D = D} {L = L} x (delete_all l)
  unfolding delete_all
  Same-delete_all [] = Takes-pure _ tt λ w h. h
  Same-delete_all (a ∷ l) =
      Takes-bind (λ u w. facts w ≡ x) _ _ (Same-delete_event a) λ u. Same-delete_all l

  Same-delete_entries : (m : Map (List ℕ)) → Same {D = D} {L = L} x (delete_entries m)
  unfolding delete_entries
  Same-delete_entries [] = Takes-pure _ tt λ w h. h
  Same-delete_entries ((t, l) ∷ m) =
      Takes-bind (λ u w. facts w ≡ x) _ _ (Same-delete_all l) λ u. Same-delete_entries m

  Same-delete_event_system : Same {D = D} {L = L} x delete_event_system
  unfolding delete_event_system
  Same-delete_event_system =
      Takes-bind (λ u w. facts w ≡ x) _ _ Takes-get
        λ w.
          Takes-bind (λ u w. facts w ≡ x) _ _ (Same-delete_entries w.system.event_map)
            λ u. Takes-modify _ _ λ w h. h

module _ {D L : Type 0} ⦃d : Double D⦄ (less : String → String → Bool)
    (print_float : D → List ℕ) where
  -- What the destructor leaves of a store with the facts `x`.
  abbrev pub Destroyed : {A : Type 0} → Facts → A → World D L → Type 0
  Destroyed x u v =
      (now v ≡ x.clock)
      × (v.damage_counter ≡ x.damage)
      × LeftBy less print_float x.log x.written (output v)

  -- The destructor from the table on.
  abbrev filled : List DamageInfo → Bool → List InfoRow → M (World D L) (Unit {0})
  filled v save table =
      modify (λ w. record w { damage_info = table })
      >> when save (modify (write_logs print_float v (totals less v).total table))

  Destroyed-filled :
      (w : World D L) (v : List DamageInfo) (save : Bool) (r : List InfoRow)
      → rows (totals less v) ≡ some r
      → w.reports ≡ some v
      → w.is_save ≡ save
      → Leads (Destroyed (facts w)) (filled v save r w)
  unfolding write_logs modify when ◌>>=◌ pure
  Destroyed-filled w v true r g e s = (refl, refl, rw e (g, rw s refl))
  Destroyed-filled w v false r g e s = (refl, refl, rw e (g, rw s refl))

  Destroyed-written :
      (w : World D L) (v : List DamageInfo) (o : Option (List InfoRow))
      → rows (totals less v) ≡ o
      → w.reports ≡ some v
      → Leads (Destroyed (facts w)) ((or_fault bad_index o >>= filled v w.is_save) w)
  unfolding ◌>>=◌ or_fault
  Destroyed-written w v none g e = tt
  Destroyed-written w v (some r) g e = Destroyed-filled w v w.is_save r g e refl

  Destroyed-reports :
      (w : World D L) (o : Option (List DamageInfo))
      → w.reports ≡ o
      → Leads (Destroyed (facts w)) (
          on_option o
            (pure tt)
            (λ v. or_fault bad_index (rows (totals less v)) >>= filled v w.is_save)
            w)
  unfolding on_option pure
  Destroyed-reports w none e = (refl, refl, rw e refl)
  Destroyed-reports w (some v) e = Destroyed-written w v (rows (totals less v)) refl e

  Takes-delete_reporter :
      (x : Facts) → Takes (λ w. facts w ≡ x) (delete_reporter print_float less) (Destroyed x)
  unfolding delete_reporter get ◌>>=◌
  Takes-delete_reporter x = record {
    at = λ w h.
        subst (λ y. Leads (Destroyed y) (delete_reporter print_float less w)) h
          (Destroyed-reports w w.reports refl);
  }

module _ {D V L : Type 0} ⦃d : Double D⦄ (env : Env D V L) (code : Code V D L) where
  pub Takes-tear_down :
      (x : Facts)
      → Takes
          (λ (w : World D L). facts w ≡ x)
          (tear_down env code)
          (Destroyed code.less code.print_float x)
  unfolding tear_down lua_clean_up
  Takes-tear_down x =
      let left : Unit {0} → World D L → Type 0 = Destroyed code.less code.print_float x in
      Takes-bind (λ u w. facts w ≡ x) _ _ (Takes-modify _ _ λ w h. h)
        λ u.
          Takes-bind (λ u w. facts w ≡ x) _ _ Same-delete_event_system
            λ u.
              Takes-bind left _ _ (Takes-delete_reporter code.less code.print_float x)
                λ u. Takes-bind left _ _ (Takes-modify _ _ λ w h. h) λ u. Takes-modify _ _ λ w h. h
