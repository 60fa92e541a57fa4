-- ===== src/Rounds.antt =====
-- The rounds of the loop of `Perform` (`DPSCalc/DPSCalc.cpp`): how the clock moves, and when the loop
-- never ends.
pub mod Clock
pub mod Spin
pub mod Left
