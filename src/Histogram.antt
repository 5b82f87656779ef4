-- ===== src/Histogram.antt =====
-- pco/src/histograms.rs: bins of about the same number of latents, from a partial sort.
pub mod Builder
pub mod Recurse
pub mod Describing
pub mod Counts
pub mod Progress
pub mod Runs
pub mod Turns
pub mod Sorted
pub mod Sides
pub mod Recursing
pub mod Whole
mod Tests
