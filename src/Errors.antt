-- ===== src/Errors.antt =====
-- What an error in a script's call leaves behind: nothing.
pub mod Rules
pub mod Arguments
pub mod Functions
pub mod Calls
