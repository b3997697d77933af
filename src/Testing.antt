-- ===== src/Testing.antt =====
-- sans-effort-core/src/testing.rs and testing/schedule.rs: machines driven on one thread, in an order
-- that a schedule picks, on a virtual clock.
pub mod Schedule
pub mod World
pub mod Turn
pub mod Choices
pub mod Picks
pub mod Ends
pub mod Clock
pub mod Returns
mod Tests
