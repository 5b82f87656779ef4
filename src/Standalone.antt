-- ===== src/Standalone.antt =====
-- pco/src/standalone: the file format around the chunks.
pub mod Varint
pub mod VarintTrip
mod Tests
