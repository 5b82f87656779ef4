-- ===== src/Delta.antt =====
-- pco/src/delta.rs: delta encoding of latents.
pub mod Consecutive
pub mod Differences
pub mod Stream
pub mod Lookback
pub mod LookbackTrip
pub mod Choose
pub mod Choosing
pub mod Chosen
pub mod LookbackBatch
pub mod Oversized
pub mod Dispatch
mod Tests
