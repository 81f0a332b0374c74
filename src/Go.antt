-- ===== src/Go.antt =====
-- What the program uses of Go itself: results with errors and panics, the dynamic types that
-- `reflect` shows, and the values that an `interface{}` holds.
pub mod Ints
pub mod Outcome
pub mod Types
pub mod Values
pub mod Decimal
pub mod Maps
pub mod Strconv
