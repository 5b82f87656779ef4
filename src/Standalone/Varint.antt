-- ===== src/Standalone/Varint.antt =====
-- write_varint of pco/src/standalone/compressor.rs and read_varint of
-- pco/src/standalone/decompressor.rs.
use pcodec.Common.{ℕ, ◌+◌, if◌then◌else◌, ◌==◌}
use pcodec.Common.Pow.{ilog2}
use pcodec.Machine.{sub_u32}
use pcodec.Errors.{Result, ok, ◌>>=◌}
use pcodec.Bits.{lowest_bits}
use pcodec.BitReader.{BitReader, read_uint, drain_empty_byte}
use pcodec.BitWriter.{BitWriter, write_uint}

abbrev pub bits_to_encode_varint_power : ℕ
bits_to_encode_varint_power = 6

unfoldable pub varint_power : ℕ → ℕ
varint_power n = if n == 0 then 1 else ilog2 n + 1

unfoldable pub write_varint : ℕ → BitWriter → Result BitWriter
unfolding varint_power
write_varint n wr = do
  let power = varint_power n
  wr1 ← write_uint 32 wr (sub_u32 power 1) bits_to_encode_varint_power
  wr2 ← write_uint 64 wr1 (lowest_bits 64 n power) power
  ok wr2

unfoldable pub read_varint : BitReader → Result (ℕ × BitReader)
read_varint r = do
  (power_less_one, r1) ← read_uint 32 r bits_to_encode_varint_power
  let power = 1 + power_less_one
  (res, r2) ← read_uint 64 r1 power
  r3 ← drain_empty_byte r2
  ok (res, r3)
