-- ===== src/Player.antt =====
-- `DPSCalc/Player.h`, `Player.cpp`: the player's statistics, cooldowns and casting state.
-- The event system's clock is an argument.
pub mod Stats
use dpscalclua.Base.{
  ℕ, ◌-◌, Bool, true, false, ◌&&◌, Option, none, some, String, [], ltb, leb, ◌==◌, if◌then◌else◌,
}
use dpscalclua.Double.{Double, zero_point, one_point}
use dpscalclua.Global.{
  PlayerPercentage, crit_percentage, hit_percentage, haste_percentage, other_percentage,
}
use dpscalclua.Map.{Map, find, insert, assign}
use dpscalclua.Spell.{Spell}
use Stats.{Stat, get_stat, new_stat}

-- What is left until a time stamp.
abbrev pub remaining : ℕ → ℕ → ℕ
remaining stamp now = if ltb now stamp then stamp - now else 0

pub record Player (D : Type 0) : Type 0 where
  pub name : String
  pub auras : Map ℕ
  pub intelligence : Stat D
  pub spirit : Stat D
  pub spell_power : Stat D
  pub crit_rating : Stat D
  pub haste_rating : Stat D
  pub hit_rating : Stat D
  pub additional_haste_percentage : D
  pub crit_bonus : D
  pub global_cooldown_recovery : ℕ
  pub cooldowns : Map ℕ
  pub casting_spell : Option ℕ
  pub is_casting : Bool

module _ {D : Type 0} ⦃d : Double D⦄ where
  open d use {lit, add, sub, mul, div, less, of_word, to_word}

  unfoldable pub new_player : Player D
  unfolding new_stat
  new_player = record {
    name = "player";
    auras = [];
    intelligence = new_stat;
    spirit = new_stat;
    spell_power = new_stat;
    crit_rating = new_stat;
    haste_rating = new_stat;
    hit_rating = new_stat;
    additional_haste_percentage = zero_point;
    crit_bonus = lit 2 0;
    global_cooldown_recovery = 0;
    cooldowns = [];
    casting_spell = none;
    is_casting = false;
  }

  -- `CRIT_RATING_PRE_PRECENT` and its neighbours.
  abbrev pub rating_per_percent : PlayerPercentage → D
  rating_per_percent crit_percentage = lit 4591 2
  rating_per_percent haste_percentage = lit 3279 2
  rating_per_percent hit_percentage = lit 26232 3
  rating_per_percent other_percentage = zero_point

  unfoldable pub percentage_to_rating : D → PlayerPercentage → ℕ
  percentage_to_rating p other_percentage = 0
  percentage_to_rating p kind = to_word (mul (mul p (rating_per_percent kind)) (lit 100 0))

  unfoldable pub rating_to_percentage : ℕ → PlayerPercentage → D
  rating_to_percentage r other_percentage = zero_point
  rating_to_percentage r kind = div (div (of_word r) (rating_per_percent kind)) (lit 100 0)

  unfoldable pub get_haste_percentage : Player D → D
  get_haste_percentage p =
      mul (rating_to_percentage (get_stat p.haste_rating) haste_percentage)
        (add one_point p.additional_haste_percentage)

  unfoldable pub get_hit_percentage : Player D → D
  get_hit_percentage p =
      let ideal = add (lit 83 2) (rating_to_percentage (get_stat p.hit_rating) hit_percentage) in
      if less one_point ideal then one_point else ideal

  unfoldable pub get_crit_percentage : Player D → D
  get_crit_percentage p =
      let by_rating = rating_to_percentage (get_stat p.crit_rating) crit_percentage in
      let by_intellect =
        div (div (of_word (get_stat p.intelligence)) (lit 1666667 4)) (lit 100 0) in
      let by_class = div (lit 124 2) (lit 100 0) in add (add by_rating by_intellect) by_class

  unfoldable pub get_spell_cast_time : Player D → Spell D → D
  get_spell_cast_time p s = div (of_word s.cast_time) (add one_point (get_haste_percentage p))

  unfoldable pub get_global_cooldown_time : Player D → D
  get_global_cooldown_time p =
      let ideal = div (lit 15 1) (add one_point (get_haste_percentage p)) in
      if less ideal one_point then lit 1000 0 else mul ideal (lit 1000 0)

  -- `AddHastePrecentage`.
  unfoldable pub add_haste_percentage : Player D → D → Player D
  add_haste_percentage p h =
      let now = add one_point p.additional_haste_percentage in
      record p {
        additional_haste_percentage =
            if less zero_point h
            then sub (mul now (add one_point h)) one_point
            else sub (div now (sub one_point h)) one_point;
      }

module _ {D : Type 0} where
  unfoldable pub is_idle : Player D → ℕ → Bool
  is_idle p now = elim p.casting_spell [
    | none ↦ leb p.global_cooldown_recovery now
    | some e ↦ false
  ]

  unfoldable pub get_spell_cooldown : Player D → ℕ → ℕ → ℕ
  get_spell_cooldown p now spell =
      let gcd = remaining p.global_cooldown_recovery now in
      let own : ℕ = elim (find spell p.cooldowns) [ none ↦ 0 | some t ↦ remaining t now ] in
      if ltb own gcd then gcd else own

  unfoldable pub is_spell_available : Player D → ℕ → ℕ → Bool
  unfolding is_idle get_spell_cooldown
  is_spell_available p now spell = is_idle p now && (get_spell_cooldown p now spell == 0)

  unfoldable pub set_spell_cooldown : Player D → ℕ → ℕ → Player D
  set_spell_cooldown p spell time = record p {
    cooldowns = elim (find spell p.cooldowns) [
      | none ↦ insert spell time p.cooldowns
      | some old ↦ assign spell time p.cooldowns
    ];
  }

  unfoldable pub set_global_cooldown_time : Player D → ℕ → Player D
  set_global_cooldown_time p time = record p { global_cooldown_recovery = time }

  unfoldable pub set_casting_spell : Player D → Option ℕ → Player D
  set_casting_spell p e = record p { casting_spell = e }

  unfoldable pub stop_casting : Player D → Player D × Bool
  stop_casting p = elim p.casting_spell [
    | some e ↦ (record p { casting_spell = none }, true)
    | none ↦ (p, false)
  ]
