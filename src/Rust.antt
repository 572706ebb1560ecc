-- ===== src/Rust.antt =====
-- What the program takes from Rust itself: results, panics, and the operations of the standard
-- library on text and on machine integers that it calls.
pub mod Outcome
pub mod Text
pub mod Lines
pub mod Bytes
pub mod Decimal
