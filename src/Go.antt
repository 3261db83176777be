-- ===== src/Go.antt =====
-- What the program uses of Go itself: panics and mutable state, and the packages strings and
-- strconv. The children prove what the components need of them.
pub mod Effect
pub mod Strings
pub mod Strconv
