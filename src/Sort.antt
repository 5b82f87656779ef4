-- ===== src/Sort.antt =====
-- pco/src/sort_utils.rs: what the histograms need of a quicksort.
pub mod Partition
pub mod Pivot
pub mod Heapsort
pub mod Heap
pub mod Sorting
mod Tests
