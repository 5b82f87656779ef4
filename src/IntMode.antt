-- ===== src/IntMode.antt =====
-- The mode of integers that are near multiples of a base: pco/src/int_mult_utils.rs, and the ordered
-- latents of signed numbers in pco/src/data_types/signeds.rs.
pub mod Multiples
pub mod Gcd
pub mod Signed
mod Tests
