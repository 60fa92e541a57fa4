-- ===== src/Registry.antt =====
-- The laws of `CAuraDB` and `CSpellDB` and of the list of creatures.
pub mod Ids
pub mod Auras
pub mod Spells
pub mod Targets
