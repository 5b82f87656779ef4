-- ===== src/BitReader/Tests.antt =====
-- A read of 20 bits in the middle of a source.
use pcodec.Common.{◌≡◌, refl, arith, ◌∷◌, replicate, every_below→All}
use pcodec.Errors.{ok}
use pcodec.Bytes.{IsBytes, value}
use pcodec.Bits.{lowest_bits, lowest_bits_lem}
use pcodec.Latent.{latent_u64, bits}
use pcodec.BitReader.{BitReader, read_uint, bit_idx}
use pcodec.BitReader.Reading.{read_uint_lem, bits_at, advance}

abbrev reader : BitReader
reader = record {
  src = 1 ∷ 254 ∷ 7 ∷ 77 ∷ replicate 16 0;
  unpadded_bit_size = 32;
  stale_byte_idx = 0;
  bits_past_byte = 11;
}

reader-IsBytes : IsBytes reader.src
reader-IsBytes = every_below→All 256 reader.src refl

read_uint_lem_example :
    (read_uint (bits latent_u64) reader 20
      ≡ ok (bits_at (value reader.src) 11 20, advance reader 20))
    × (bit_idx (advance reader 20) ≡ 31)
read_uint_lem_example =
    read_uint_lem latent_u64 reader 20 reader-IsBytes (unfold bits in omega arith) (omega arith)

lowest_bits_lem_example : lowest_bits 16 777 5 ≡ 9
lowest_bits_lem_example = lowest_bits_lem 16 777 5 (omega arith)
