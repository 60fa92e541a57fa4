-- ===== src/Global.antt =====
-- `DPSCalc/Global.h`: the flags of events and spells, and the statistics that scripts name.
use Prim.Native.Nat.{bit_and}
use dpscalclua.Base.{ℕ, Bool, ◌==◌, if◌then◌else◌}

abbrev pub event_spell_cast : ℕ
event_spell_cast = 0x1000_0001

abbrev pub event_spell_channel : ℕ
event_spell_channel = 0x1000_0004

abbrev pub event_aura_application : ℕ
event_aura_application = 0x2000_0001

abbrev pub event_aura_removal : ℕ
event_aura_removal = 0x2000_0002

abbrev pub event_aura_periodic_event : ℕ
event_aura_periodic_event = 0x2000_0004

abbrev pub event_pre : ℕ
event_pre = 0x4000_0000

abbrev pub event_post : ℕ
event_post = 0x8000_0000

abbrev pub spell_damage : ℕ
spell_damage = 1

abbrev pub spell_aura_application : ℕ
spell_aura_application = 2

abbrev pub spell_channel : ℕ
spell_channel = 4

-- `(bits & flag) == flag`.
abbrev pub has_flag : ℕ → ℕ → Bool
has_flag bits flag = bit_and bits flag == flag

-- `enum eL_PlayerPrecentage`, the members that a `switch` names.
pub data PlayerPercentage : Type 0 where
  crit_percentage hit_percentage haste_percentage other_percentage : PlayerPercentage

abbrev pub pp_invalid_min : ℕ
pp_invalid_min = 1

abbrev pub pp_invalid_max : ℕ
pp_invalid_max = 5

-- The member with a given number.
unfoldable pub percentage_of : ℕ → PlayerPercentage
percentage_of n =
    if n == 2
    then crit_percentage
    else (if n == 3
        then hit_percentage
        else (if n == 4 then haste_percentage else other_percentage))

-- `enum eL_PlayerStats`.
pub data PlayerStat : Type 0 where
  ps_crit_rating ps_hit_rating ps_haste_rating ps_spell_power ps_intelligence ps_spirit : PlayerStat
  ps_haste_percentage ps_other : PlayerStat

abbrev pub ps_level : ℕ
ps_level = 1

abbrev pub ps_invalid_max : ℕ
ps_invalid_max = 9

unfoldable pub player_stat_of : ℕ → PlayerStat
player_stat_of n =
    if n == 2
    then ps_crit_rating
    else (if n == 3
        then ps_hit_rating
        else (if n == 4
            then ps_haste_rating
            else (if n == 5
                then ps_spell_power
                else (if n == 6
                    then ps_intelligence
                    else (if n == 7
                        then ps_spirit
                        else (if n == 8 then ps_haste_percentage else ps_other))))))

-- `enum eL_CombatStsts`.
pub data CombatStat : Type 0 where
  cs_damage cs_damage_percentage cs_crit_percentage cs_hit_percentage : CombatStat
  cs_crit_rating cs_hit_rating cs_haste_rating cs_cast_time cs_cooldown : CombatStat
  cs_haste_percentage cs_other : CombatStat

rating_stat_of : ℕ → CombatStat
rating_stat_of n =
    if n == 6
    then cs_crit_rating
    else (if n == 7
        then cs_hit_rating
        else (if n == 8
            then cs_haste_rating
            else (if n == 9
                then cs_cast_time
                else (if n == 10
                    then cs_cooldown
                    else (if n == 11 then cs_haste_percentage else cs_other)))))

unfoldable pub combat_stat_of : ℕ → CombatStat
unfolding rating_stat_of
combat_stat_of n =
    if n == 2
    then cs_damage
    else (if n == 3
        then cs_damage_percentage
        else (if n == 4
            then cs_crit_percentage
            else (if n == 5 then cs_hit_percentage else rating_stat_of n)))
