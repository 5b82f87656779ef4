-- ===== src/Page.antt =====
-- pco/src: one page of one latent variable, taken apart into bins, offsets and ANS states, and put
-- together again.
pub mod Symbols
pub mod Reading
pub mod Table
pub mod Search
pub mod Searching
pub mod Dissect
pub mod Interleaved
pub mod Found
pub mod Reverse
pub mod AnsTrip
mod Tests
mod DeltaTests
pub mod Offsets
pub mod Decompress
pub mod Write
pub mod Writing
pub mod OffsetTrip
pub mod Compress
pub mod Filled
pub mod BatchTrip
pub mod DeltaTrip
