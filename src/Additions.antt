-- ===== src/Additions.antt =====
-- The additions that scripts make and take back: `CLASS_ELEMENT_UINT32` of `DPSCalc/Global.h` and the
-- damage percentages of `CEvent`.
use dpscalclua.Base.{
  ℕ, zero, suc, ◌≤◌, ◌<◌, ◌≡◌, refl, ◌∙◌, List, [], ◌∷◌, none, some, inl, inr, arith, length,
  get_elem?, set, Option-cases, ltb, ◌==◌, if◌then◌else◌,
}
use dpscalclua.Double.{Double, one_point}
use dpscalclua.Event.{Additionals, add_damage_percentage}

module _ {D : Type 0} where
  length-set : (l : List D) (i : ℕ) (x : D) → length (set l i x) ≡ length l
  length-set [] i x = refl
  length-set (y ∷ l) zero x = refl
  length-set (y ∷ l) (suc i) x = omega (arith, length-set l i x)

  get_elem_beyond : (l : List D) (i : ℕ) → get_elem? l i ≡ none → length l ≤ i
  get_elem_beyond [] i h = omega arith
  get_elem_beyond (y ∷ l) zero h = absurd (cc h)
  get_elem_beyond (y ∷ l) (suc i) h = omega (arith, get_elem_beyond l i h)

  get_elem_some : (l : List D) (i : ℕ) (x : D) → get_elem? l i ≡ some x → i < length l
  get_elem_some [] i x h = absurd (cc h)
  get_elem_some (y ∷ l) zero x h = omega arith
  get_elem_some (y ∷ l) (suc i) x h = omega (arith, get_elem_some l i x h)

  get_elem-set :
      (l : List D) (i j : ℕ) (old x : D)
      → get_elem? l i ≡ some old
      → get_elem? (set l i x) j ≡ (if i == j then some x else get_elem? l j)
  get_elem-set [] i j old x h = absurd (cc h)
  get_elem-set (y ∷ l) zero zero old x h = ground arith
  get_elem-set (y ∷ l) zero (suc j) old x h = ground arith
  get_elem-set (y ∷ l) (suc i) zero old x h = ground arith
  get_elem-set (y ∷ l) (suc i) (suc j) old x h = ground (arith, get_elem-set l i j old x h)

module _ {D : Type 0} ⦃d : Double D⦄ where
  -- Percentages of the lower half add up, those of the upper half multiply.
  abbrev pub together : ℕ → (old more : D) → D
  together i old more =
      if ltb i 8
      then d.add old more
      else d.sub (d.mul (d.add one_point old) (d.add one_point more)) one_point

  -- With the 16 percentages that an event has: `AddDamagePrecentage` writes out of bounds for an index of 16
  -- or more. For a smaller one it adds to the percentage there if the index is below 8, and else multiplies
  -- one more than each of the two; the other percentages and all that the event has besides stay.
  pub add_damage_percentage_lem :
      (x : Additionals D) (more : D) (i : ℕ)
      → length x.damage_percentage ≡ 16
      → (16 ≤ i → add_damage_percentage x more i ≡ none)
        × (i < 16
            → (old : D) × (l : List D) × (get_elem? x.damage_percentage i ≡ some old)
              × (add_damage_percentage x more i ≡ some (record x { damage_percentage = l }))
              × (length l ≡ 16)
              × ((j : ℕ)
                  → get_elem? l j ≡ (
                      if i == j
                      then some (together i old more)
                      else get_elem? x.damage_percentage j)))
  unfolding add_damage_percentage
  add_damage_percentage_lem x more i h = elim (Option-cases (get_elem? x.damage_percentage i)) [
    | inl e ↦ (
      λ g. rw (e, add_damage_percentage) refl,
      λ g. absurd (omega (arith, h, get_elem_beyond x.damage_percentage i e)),
    )
    | inr (old, e) ↦ (
      λ g. absurd (omega (arith, h, get_elem_some x.damage_percentage i old e)),
      λ g. (
        old,
        set x.damage_percentage i (together i old more),
        e,
        rw (e, add_damage_percentage) refl,
        length-set x.damage_percentage i _ ∙ h,
        λ j. get_elem-set x.damage_percentage i j old (together i old more) e,
      ),
    )
  ]
