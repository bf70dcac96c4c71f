-- ===== src/Go.antt =====
-- The parts of the Go language and its standard library that the program relies on.
pub mod Text
pub mod Map
pub mod Outcome
pub mod Process
pub mod Error
pub mod Int
pub mod Sort
pub mod Chan
