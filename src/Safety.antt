-- ===== src/Safety.antt =====
-- The event objects of `DPSCalc/EventSystem.cpp`: who owns them, and that none is used after it is
-- deleted, deleted twice, or lost.
pub mod Meets
pub mod Queued
pub mod Core
pub mod Steps
pub mod Functions
pub mod Current
pub mod Units
pub mod Routines
pub mod Loading
pub mod Owned
pub mod Running
pub mod AuraEvents
pub mod Ticks
pub mod SpellEvents
pub mod Spent
pub mod Process
pub mod Loop
pub mod Ownership
pub mod Cleared
