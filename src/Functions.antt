-- ===== src/Functions.antt =====
-- server/hb/fcn.c: the functions of the language that need no table, and the checks on their operands.
pub mod Codes
pub mod Operands
pub mod Text
pub mod Calls
pub mod Select
pub mod Calendar
pub mod Dispatch
pub mod Spell
pub mod Tests
