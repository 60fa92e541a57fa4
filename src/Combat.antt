-- ===== src/Combat.antt =====
-- The events' behaviour (`DPSCalc/EventSystem.cpp`): chances, damage, and what an event does when it
-- is due. The files below follow the source's order.
pub mod Chance
pub mod Damage
pub mod Report
pub mod AuraEvents
pub mod SpellEvents
