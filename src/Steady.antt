-- ===== src/Steady.antt =====
-- What the events and the scripts of `DPSCalc/EventSystem.cpp` and `DPSCalc/LuaIntergration.cpp` leave as it
-- was, and what whole runs of `Perform` keep.
pub mod Rules
pub mod Takes
pub mod Steps
pub mod Functions
pub mod Units
pub mod Routines
pub mod Loading
pub mod AuraEvents
pub mod SpellEvents
pub mod Loop
pub mod Runs
pub mod Damage
pub mod Written
pub mod Destroyed
pub mod Result
