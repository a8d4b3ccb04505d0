-- ===== src/TopSort/Workers.antt =====
-- The workers of Assignment_05/LA5/worker.c, interleaved in any order.
pub mod Moves
pub mod Invariant
pub mod Listing
