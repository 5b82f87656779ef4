-- ===== src/Ans.antt =====
-- pco/src/ans: the tANS tables. A state is a number from the table size up to twice that, or, less
-- the table size, an index into the table.
pub mod Spec
pub mod Encoding
pub mod Decoding
pub mod Renorm
pub mod NodeOf
pub mod Positions
pub mod Stride
pub mod Scatter
pub mod Spreading
pub mod RoundTrip
pub mod NodeBits
pub mod Sample
mod Tests
