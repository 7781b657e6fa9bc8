-- ===== src/Stdlib.antt =====
-- The parts of Go's standard library that the program's wire formats rest on.
pub mod Hex
pub mod BigEndian
pub mod Base64
pub mod Strings
pub mod ParseInt
