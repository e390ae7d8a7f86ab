-- ===== src/Go.antt =====
-- The parts of Go's standard library that the source uses.
pub mod Hex
pub mod Text
pub mod BigInt
