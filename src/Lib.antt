-- ===== src/Lib.antt =====
-- The damage simulator of DPSCalc: a queue of events drives a player who casts spells and the auras that
-- the spells leave, scripts in Lua decide what is cast, and reports add the damage up.
--
-- The parts and their files:
--   * `DPSCalc/Global.h` is Global: flags and enumerations. `CLASS_ELEMENT_UINT32` is Player/Stats.
--   * `DPSCalc/Aura.h`, `Aura.cpp` are Aura; `Spell.h`, `Spell.cpp` are Spell; `Creature.h`,
--     `Creature.cpp` are Creature; `Player.h`, `Player.cpp` are Player. Methods become functions under
--     the method's name in lower case (`CAuraDB::AddAura` is `add_aura`); a change of `*this` returns the
--     new record.
--   * `DPSCalc/EventSystem.h`, `EventSystem.cpp` are EventSystem (the queue and the clock), Event (the
--     three event classes as a record with a body of two cases), Combat/Chance and Combat/Damage (the
--     virtual functions), Combat/AuraEvents and Combat/SpellEvents (`operator()` and what it calls), and
--     Simulation (`ProcessEvent`).
--   * `DPSCalc/DPSCalc.cpp` is Calculation (`Perform`, with what it calls of `LuaIntergration.cpp` and the
--     destructor of the queue), Simulation (the loop of `Perform`), Combat/Report (`ReportDamage`) and,
--     with `Reporter.cpp`, Reporter (`GetDamageInfo` and the sums of the destructor), Reporter/Log (the
--     texts of the two log files) and Reporter/Object (the constructor and the destructor).
--   * `DPSCalc/LuaIntergration.cpp` is Lua: one function for each one that a script can call
--     (`L_AuraAdd` is `lua_aura_add`), Lua/Dispatch (`CallLuaFunction`, `docall`), and Loading (`RunLuaCode`
--     and `LoadTOCFile`; Loading/Listing says what a table of contents means, without fuel).
--   * Store is the state that they share, the global variables and the heap, and the steps on it; Heap
--     has the reads and writes through pointers. Script is what the program takes from outside. Base,
--     Double and Map are numbers, words and `std::map`.
-- The theorems stand in the children of Loading, in Reporter/ReadBack and Calculation/Again, and in Queue,
-- Cooldowns, Registry, Carried, Totals, Fuel, Processed, Rounds, Additions, Fading, Casts, Errors, Steady and
-- Safety; Examples applies each of those that are listed at a concrete input.
--
-- How the code is read:
--   * A `uint32` is a number with its wrap-around written out; an `int32` is the `uint32` with its bits,
--     and a sum of two of them that overflows is a fault. `double` is a parameter with the operations that the
--     program uses, those of `float` apart, and no laws are assumed.
--   * A pointer is an address; each address is given out once, so a stale pointer is never equal to a new
--     one. The use of an object that is not there, a division by zero, a NULL pointer that is read and an
--     index out of bounds are faults, with which a run ends.
--   * `assert` is left out, as the release build does. Memory that is read before it is written has the
--     contents that the environment gives. Lengths of strings in fixed buffers are modelled for the paths of
--     the scripts only.
--   * The two log files always open, and a run puts its text behind what they hold.
--   * `rand` is a sequence of numbers that the environment gives. A run of a routine or of a chunk is a tree
--     of calls, each of which sees the reply to the one before. The tree depends on the state that Lua was left
--     in, and its end says what state it leaves.
--   * Only `process_event`, `main_loop` and `load_toc`, and so `perform`, take fuel. A period of 0, a script
--     that never stops to cast, or a table of contents that names itself makes the program itself run
--     forever, so no amount is enough for every store. Loading/Ends is about the fuel that is enough for
--     `load_toc`, and Fuel about more fuel and more rounds.
--   * `has_player` stands for both global pointers, to the player and to the queue. A calculation that
--     finds them set goes on with the old player and queue and has a loop of its own, `spare_loop`.
-- Not modelled: Lua's own interface, what would follow the loop of a calculation that found the global
-- pointers set, the texts of errors that are printed and the lines on the console, the entry points, and
-- the copy of Lua 5.1 under `DPSCalc/lua`. The databases and the list of creatures hold their objects by
-- value; their destructors leave them empty.
pub mod Base
pub mod Double
pub mod Map
pub mod Global
pub mod Aura
pub mod Spell
pub mod Creature
pub mod Player
pub mod Event
pub mod EventSystem
pub mod Store
pub mod Script
pub mod Heap
pub mod Combat
pub mod Lua
pub mod Simulation
pub mod Loading
pub mod Reporter
pub mod Calculation
pub mod Queue
pub mod Carried
pub mod Totals
pub mod Casts
pub mod Fuel
pub mod Processed
pub mod Rounds
pub mod Additions
pub mod Fading
pub mod Registry
pub mod Cooldowns
pub mod Errors
pub mod Steady
pub mod Safety
pub mod Examples
