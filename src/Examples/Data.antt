-- ===== src/Examples/Data.antt =====
-- The theorems on the queue, the clock, the cooldowns, the databases, the carried auras and the sums, at
-- small inputs.
use dpscalclua.Base.{
  ◌<◌, ◌≤◌, ◌==◌, if◌then◌else◌, ℕ, ◌+◌, ◌≤◌, ◌<◌, ◌≡◌, ◌%◌, refl, String, Bool, true, false, List,
  [], ◌∷◌, none, some, arith, word_mod, get_elem?, length,
}
use dpscalclua.Double.Milli.{milli}
use dpscalclua.Map.{find}
use dpscalclua.Aura.{add_aura, empty_aura_db, get_aura_by_id}
use dpscalclua.Spell.{add_spell, empty_spell_db, get_spell_by_id}
use dpscalclua.Creature.{
  AuraMap, get_aura, apply_aura, remove_aura, remove_aura_by_id, is_aura_applied_by_id,
}
use dpscalclua.Player.{new_player, get_spell_cooldown, set_spell_cooldown, is_spell_available}
use dpscalclua.EventSystem.{EventSystem, add_event, pop_front, advance}
use dpscalclua.Store.{InfoRow, DamageInfo}
use dpscalclua.Simulation.{due}
use dpscalclua.Reporter.{
  totals, rows, rows_from, amount, add_amount, add_info, no_totals, get_damage_info,
}
use dpscalclua.Queue.Order.{entry, entry-add_event, entry-pop_front}
use dpscalclua.Queue.Clock.{IsOnTime, advance_lem}
use dpscalclua.Cooldowns.{get_spell_cooldown-set_spell_cooldown, is_spell_available-wait}
use dpscalclua.Registry.Auras.{get_aura_by_id-add_aura, empty_aura_db-IsValid}
use dpscalclua.Registry.Spells.{get_spell_by_id-add_spell, empty_spell_db-IsValid}
use dpscalclua.Carried.{
  get_aura-apply_aura, get_aura-remove_aura, remove_aura-apply_aura, remove_aura_by_id_lem,
}
use dpscalclua.Totals.{sum_of, totals_lem}
use dpscalclua.Player.Stats.{Stat}
use dpscalclua.Event.{Additionals, reset_additionals, add_damage_percentage}
use dpscalclua.Totals.Calls.{collect, collect-rows}
use dpscalclua.Additions.{together, add_damage_percentage_lem}
use dpscalclua.Examples.Stores.{pain, bolt}

abbrev two_events : EventSystem
two_events = record { game_time = 100; event_map = (100, 1 ∷ 2 ∷ []) ∷ []; exitable = false }

abbrev later : EventSystem
later = record { game_time = 100; event_map = (150, 1 ∷ []) ∷ []; exitable = false }

entry-add_event_example : entry 100 (add_event two_events 7 0).event_map ≡ 1 ∷ 2 ∷ 7 ∷ []
unfolding find
entry-add_event_example = entry-add_event two_events 7 0 100

entry-pop_front_example : entry 100 (pop_front 100 two_events.event_map) ≡ 2 ∷ []
unfolding find
entry-pop_front_example = entry-pop_front 100 100 two_events.event_map (omega arith, tt)

advance_lem_example :
    IsOnTime (advance later 70)
    × (later.game_time < (advance later 70).game_time)
    × ((advance later 70).game_time ≤ later.game_time + 70)
unfolding due
advance_lem_example = advance_lem later 70 (omega arith, tt) refl (omega arith) (omega arith)

get_spell_cooldown-set_spell_cooldown_example :
    get_spell_cooldown (set_spell_cooldown (new_player {D = ℕ}) 1 900) 100 1 ≡ 800
unfolding new_player
get_spell_cooldown-set_spell_cooldown_example =
    get_spell_cooldown-set_spell_cooldown (new_player {D = ℕ}) 1 900 100 1

is_spell_available-wait_example : is_spell_available (new_player {D = ℕ}) (100 + 0) 1 ≡ true
unfolding new_player get_spell_cooldown find
is_spell_available-wait_example = is_spell_available-wait (new_player {D = ℕ}) 100 1 0 refl

get_aura_by_id-add_aura_example :
    get_aura_by_id (add_aura empty_aura_db pain).0 1 ≡ some (record pain { id = 1 })
unfolding add_aura empty_aura_db
get_aura_by_id-add_aura_example =
    get_aura_by_id-add_aura empty_aura_db pain empty_aura_db-IsValid (omega arith) 1

get_spell_by_id-add_spell_example :
    get_spell_by_id (add_spell empty_spell_db bolt).0 1 ≡ some (record bolt { id = 1 })
unfolding add_spell empty_spell_db
get_spell_by_id-add_spell_example =
    get_spell_by_id-add_spell empty_spell_db bolt empty_spell_db-IsValid (omega arith) 1

abbrev two_auras : AuraMap
two_auras = (1, 9) ∷ (3, 12) ∷ []

get_aura-apply_aura_example : get_aura (apply_aura two_auras 2 15).0 2 ≡ some 15
unfolding get_aura find
get_aura-apply_aura_example = get_aura-apply_aura two_auras 2 15 2

get_aura-remove_aura_example : get_aura (remove_aura two_auras 12).0 3 ≡ none
unfolding get_aura find
get_aura-remove_aura_example =
    get_aura-remove_aura two_auras 0 12 3 (omega arith, (omega arith, tt))
      ((λ e. ground arith, tt), (tt, tt))

remove_aura-apply_aura_example : remove_aura (apply_aura two_auras 2 15).0 15 ≡ (two_auras, true)
unfolding is_aura_applied_by_id find
remove_aura-apply_aura_example =
    remove_aura-apply_aura two_auras 2 15 (λ e. ground arith, (λ e. ground arith, tt)) refl

remove_aura_by_id_lem_example :
    (get_aura (remove_aura_by_id two_auras 3).0 1 ≡ some 9)
    × ((remove_aura_by_id two_auras 3).1 ≡ none)
unfolding is_aura_applied_by_id get_aura find
remove_aura_by_id_lem_example = remove_aura_by_id_lem two_auras 3 1 (omega arith, (omega arith, tt))

abbrev by_rank : String → String → Bool
by_rank a b = false

abbrev log : List DamageInfo
log =
    record { spell_name = "Bolt"; damage = 40; game_time = 7; is_crit = true }
    ∷ record { spell_name = "Bolt"; damage = 25; game_time = 3; is_crit = false }
    ∷ []

abbrev table : List InfoRow
table = record { index = 0; damage = 65; count = 2; crit_count = 1; spell_name = "Bolt" } ∷ []

totals_lem_example :
    ((totals by_rank log).total ≡ 65)
    × (sum_of (totals by_rank log).damage % word_mod ≡ 65)
    × (sum_of (totals by_rank log).count % word_mod ≡ 2)
    × (sum_of (totals by_rank log).crit_count % word_mod ≡ 1)
totals_lem_example = totals_lem by_rank log

abbrev power : Stat ℕ
power = record { base = 900; additional = 50; multiplier = 0 }

collect-rows_example :
    (collect 2 table 0 ≡ some table) × ((k : ℕ) → 1 ≤ k → get_damage_info table k ≡ some (0, none))
unfolding rows rows_from totals amount add_amount add_info no_totals
collect-rows_example = collect-rows (totals by_rank log) table refl

abbrev none_added : Additionals ℕ
none_added = reset_additionals

add_damage_percentage_lem_example :
    (16 ≤ 9 → add_damage_percentage none_added 300 9 ≡ none)
    × (9 < 16
        → (old : ℕ) × (l : List ℕ) × (get_elem? none_added.damage_percentage 9 ≡ some old)
          × (add_damage_percentage none_added 300 9
              ≡ some (record none_added { damage_percentage = l }))
          × (length l ≡ 16)
          × ((j : ℕ)
              → get_elem? l j ≡ (
                  if 9 == j
                  then some (together 9 old 300)
                  else get_elem? none_added.damage_percentage j)))
unfolding reset_additionals
add_damage_percentage_lem_example = add_damage_percentage_lem none_added 300 9 refl
