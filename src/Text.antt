-- ===== src/Text.antt =====
-- The functions of Go's `strings` and `strconv` packages that the program calls, over byte strings.
pub mod Search
pub mod Trim
pub mod Case
pub mod Index
pub mod Split
pub mod Decimal
