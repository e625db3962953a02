-- ===== src/Engine.antt =====
-- The engine (src/engine.rs): one position per token, from launches and prices to orders.
pub mod State
pub mod Entry
pub mod Exit
pub mod Events
pub mod Book
pub mod Sums
pub mod Balance
pub mod Entries
pub mod Spec
pub mod Refines
pub mod Check
pub mod HighWater
pub mod Selling
pub mod Sweep
pub mod Halted
pub mod Restore
pub mod View
