-- ===== src/Lua.antt =====
-- `DPSCalc/LuaIntergration.cpp`: the functions that the program gives to the scripts.
pub mod Args
pub mod Auras
pub mod Spells
pub mod EventStats
pub mod PlayerStats
pub mod Casting
pub mod Units
pub mod Dispatch
