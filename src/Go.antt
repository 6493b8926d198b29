-- ===== src/Go.antt =====
-- What the code uses of Go's standard library: `strings`, `slices` and `unicode`.
pub mod Strings
pub mod Maps
pub mod Strconv
pub mod Slices
