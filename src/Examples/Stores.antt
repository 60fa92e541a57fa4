-- ===== src/Examples/Stores.antt =====
-- A small run: a periodic aura is about to be applied to the player, and a cast waits for its turn.
use dpscalclua.Base.{ℕ, ◌+◌, ◌*◌, refl, true, false, [], ◌∷◌, Option, none, some, arith}
use dpscalclua.Double.Milli.{milli}
use dpscalclua.Map.{find}
use dpscalclua.Aura.{Aura}
use dpscalclua.Spell.{Spell}
use dpscalclua.Player.{new_player}
use dpscalclua.Event.{Event, the_player, new_spell_event, new_aura_event}
use dpscalclua.Store.{World}
use dpscalclua.Script.{Env, Prog, Hook, player_idle, finish, call, fn_finalize_calculation}
use dpscalclua.Safety.Core.{core}
use dpscalclua.Safety.Owned.{Idle}

abbrev pub pain : Aura ℕ
pain = record {
  addr = 0;
  id = 1;
  ticks = 1;
  periodic_event_time = 3000;
  name = "Pain";
  is_periodic = true;
  crit_enabled = true;
  haste_enabled = false;
  periodic_damage_min = 100;
  periodic_damage_max = 200;
  fade_time = 0;
  school = 5;
  guid = 7;
  spell_power_factor = 0;
  spell_power = 0;
}

abbrev pub bolt : Spell ℕ
bolt = record {
  name = "Bolt";
  spell_type = 1;
  damage_min = 300;
  damage_max = 400;
  id = 1;
  cast_time = 2500;
  cooldown = 8000;
  channel_ticks = 0;
  school = 5;
  aura_to_apply = none;
  aura_fade_time = 0;
  sp_percentage = 0;
}

-- The scripts end the calculation when the player has nothing to do.
abbrev pub routines : Hook → Option ℕ → ℕ → Prog ℕ ℕ ℕ
routines player_idle n l = call fn_finalize_calculation [] λ r. finish true (l + 1)
routines _ n l = finish true l

abbrev pub sim : Env ℕ ℕ ℕ
sim = record {
  rand = λ n. n * 7 + 3;
  junk_word = λ a. 5;
  junk_aura = λ a. pain;
  api = record {
    is_string = λ v. false;
    is_number = λ v. true;
    is_boolean = λ v. false;
    is_nil = λ v. false;
    to_string = λ v. "";
    to_number = λ v. v;
    to_integer = λ v. v;
    to_boolean = λ v. false;
  };
  script = routines;
}

abbrev pub applied : Event ℕ
applied = new_aura_event 5 1 1 the_player 1 18000 false

abbrev pub cast : Event ℕ
cast = new_spell_event 5 2 1 the_player

abbrev pub world : World ℕ ℕ
world = record {
  system = record { game_time = 100; event_map = (100, 1 ∷ 2 ∷ []) ∷ []; exitable = false };
  player = new_player;
  creatures = [];
  aura_db = record { auras = (1, pain) ∷ []; id_counter = 1 };
  spell_db = record { id_counter = 1; spells = (1, bolt) ∷ [] };
  events = (1, applied) ∷ (2, cast) ∷ [];
  auras = (9, record pain { addr = 9; fade_time = 5000 }) ∷ [];
  next_addr = 10;
  guid_counter = 7;
  draws = 0;
  lua = 0;
  current_event = none;
  current_target = none;
  has_player = true;
  normalize_crit = false;
  damage_counter = 0;
  reports = some [];
  is_save = false;
  damage_info = [];
  combat_log = [];
  lite_log = [];
}

pub world-Idle : Idle (core world)
unfolding find new_aura_event new_spell_event
world-Idle = record {
  owned = record {
    sorted = (omega arith, (omega arith, tt));
    below = λ b e h. ground arith;
    named = λ b e h. ground arith;
    counted = λ b. ground arith;
  };
  stopped = refl;
}
