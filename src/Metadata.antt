-- ===== src/Metadata.antt =====
-- pco/src/metadata: how a chunk describes its compression, read from and written to bits.
pub mod FormatVersion
pub mod DeltaEncoding
pub mod DeltaEncodingTrip
pub mod Mode
pub mod Bin
pub mod BinTrip
pub mod PerLatentVar
pub mod ModeTrip
mod Tests
