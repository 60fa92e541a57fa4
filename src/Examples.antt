-- ===== src/Examples.antt =====
-- The theorems at concrete inputs, and the stores that the inputs come from.
mod Stores
mod Scripts
mod Names
mod Runs
mod Rounds
mod Data
