-- ===== src/Event.antt =====
-- `CEvent`, `CSpellEvent` and `CAuraEvent` of `DPSCalc/EventSystem.h` as data: the fields of the base
-- class, and those of each subclass as a case of the body. Events are compared by their addresses.
use Prim.Native.Nat.{bit_or}
use dpscalclua.Base.{
  ℕ, suc, Bool, false, not, List, ◌∷◌, Option, none, some, ltb, get_elem?, set, replicate,
  if◌then◌else◌,
}
use dpscalclua.Double.{Double, zero_point, one_point}
use dpscalclua.Global.{event_spell_cast, event_pre, event_aura_application, event_aura_removal}

-- A pointer to a creature: the player, or a creature of the list.
pub data CreatureRef : Type 0 where
  the_player : CreatureRef
  creature : ℕ → CreatureRef

pub record Additionals (D : Type 0) : Type 0 where
  pub damage : ℕ
  pub damage_percentage : List D
  pub haste_percentage : D
  pub crit_rating : ℕ
  pub haste_rating : ℕ
  pub cast_time : ℕ
  pub cooldown : ℕ
  pub hit_rating : ℕ

pub record SpellPart : Type 0 where
  pub spell : ℕ
  pub crit : Bool
  pub hit : Bool
  pub calculated_damage : ℕ
  pub gcd_recovery : ℕ

pub record AuraPart : Type 0 where
  pub aura : ℕ
  pub spell : Option ℕ
  pub fade_time_till_now : ℕ
  pub set_fade_time : Bool
  pub add_stacks : ℕ
  pub crit : Bool
  pub calculated_damage : ℕ
  pub periodic_time : ℕ
  pub about_remove : Bool
  pub guid : ℕ

pub data Body : Type 0 where
  of_spell : SpellPart → Body
  of_aura : AuraPart → Body

-- A write to members of `CAuraEvent`.
unfoldable pub map_aura : (AuraPart → AuraPart) → Body → Body
map_aura f (of_aura a) = of_aura (f a)
map_aura f (of_spell s) = of_spell s

pub record Event (D : Type 0) : Type 0 where
  pub addr : ℕ
  pub event_type : ℕ
  pub target : CreatureRef
  pub parent : Option ℕ
  pub extra : Additionals D
  pub body : Body

module _ {D : Type 0} ⦃d : Double D⦄ where
  open d use {add, sub, mul}

  -- The assignments of `CEvent::CEvent` and of `ResetAdditionals`.
  unfoldable pub reset_additionals : Additionals D
  reset_additionals = record {
    damage = 0;
    damage_percentage = replicate 16 zero_point;
    haste_percentage = zero_point;
    crit_rating = 0;
    haste_rating = 0;
    cast_time = 0;
    cooldown = 0;
    hit_rating = 0;
  }

  -- The loop of `Get_AdditionalDamagePrecentage`: the factors at the first `n` indices.
  unfoldable pub percentage_product : ℕ → List D → D → D
  percentage_product (suc n) (x ∷ xs) acc = percentage_product n xs (mul acc (add one_point x))
  percentage_product _ _ acc = acc

  unfoldable pub get_additional_damage_percentage : Additionals D → D
  unfolding percentage_product
  get_additional_damage_percentage x =
      sub (percentage_product 15 x.damage_percentage one_point) one_point

  unfoldable pub get_additional_damage_percentage_special : Additionals D → D
  get_additional_damage_percentage_special x = elim (get_elem? x.damage_percentage 15) [
    | some y ↦ y
    | none ↦ zero_point
  ]

  -- `AddDamagePrecentage`; `none` is the failed `assert`, a write out of bounds.
  unfoldable pub add_damage_percentage : Additionals D → D → ℕ → Option (Additionals D)
  add_damage_percentage x p i = elim (get_elem? x.damage_percentage i) [
    | none ↦ none
    | some old ↦ some (record x {
      damage_percentage = set x.damage_percentage i (
          if ltb i 8 then add old p else sub (mul (add one_point old) (add one_point p)) one_point);
    })
  ]

  -- `CSpellEvent::CSpellEvent`; what it does not set has what the memory had.
  unfoldable pub new_spell_event : (junk addr spell : ℕ) → CreatureRef → Event D
  unfolding reset_additionals
  new_spell_event junk addr spell target = record {
    addr = addr;
    event_type = bit_or event_spell_cast event_pre;
    target = target;
    parent = none;
    extra = reset_additionals;
    body = of_spell (record {
      spell = spell;
      crit = false;
      hit = ltb 0 junk;
      calculated_damage = 0;
      gcd_recovery = junk;
    });
  }

  -- The first constructor of `CAuraEvent`.
  unfoldable pub new_aura_event :
      (junk addr aura : ℕ) → CreatureRef → (stacks fade : ℕ) → Bool → Event D
  unfolding reset_additionals
  new_aura_event junk addr aura target stacks fade not_set_fade = record {
    addr = addr;
    event_type = event_aura_application;
    target = target;
    parent = none;
    extra = reset_additionals;
    body = of_aura (record {
      aura = aura;
      spell = none;
      fade_time_till_now = fade;
      set_fade_time = not not_set_fade;
      add_stacks = stacks;
      crit = false;
      calculated_damage = 0;
      periodic_time = junk;
      about_remove = false;
      guid = junk;
    });
  }

  -- The second one, for a removal. It does not store the GUID that it is given.
  unfoldable pub new_removal_event :
      (junk addr aura : ℕ) → CreatureRef → (to_remove_guid : ℕ) → Event D
  unfolding reset_additionals
  new_removal_event junk addr aura target to_remove_guid = record {
    addr = addr;
    event_type = event_aura_removal;
    target = target;
    parent = none;
    extra = reset_additionals;
    body = of_aura (record {
      aura = aura;
      spell = none;
      fade_time_till_now = junk;
      set_fade_time = ltb 0 junk;
      add_stacks = junk;
      crit = ltb 0 junk;
      calculated_damage = junk;
      periodic_time = junk;
      about_remove = ltb 0 junk;
      guid = junk;
    });
  }
