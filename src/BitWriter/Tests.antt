-- ===== src/BitWriter/Tests.antt =====
-- Three fields of different types behind three bits that were written before.
use pcodec.Common.{
  ◌≡◌, refl, arith, List, [], ◌∷◌, ◌+◌, ◌*◌, ◌^◌, ◌-◌, map, replicate, every_below→All,
}
use pcodec.Errors.{ok}
use pcodec.Bytes.{value}
use pcodec.Latent.{latent_u16, latent_u32, latent_u64, bits}
use pcodec.BitReader.{BitReader, bit_idx}
use pcodec.BitWriter.{BitWriter}
use pcodec.BitWriter.Fields.{
  Field, position, packed, write_fields, read_fields, write_fields-read_fields,
}

abbrev writer : BitWriter
writer = record { buf = 5 ∷ replicate 31 0; stale_byte_idx = 0; bits_past_byte = 3; dst = [] }

abbrev reader : BitReader
reader = record { src = []; unpadded_bit_size = 256; stale_byte_idx = 0; bits_past_byte = 3 }

abbrev fields : List Field
fields =
    record { type = latent_u16; n_bits = 9; val = 257 }
    ∷ record { type = latent_u64; n_bits = 64; val = 2 ^ 64 - 3 }
    ∷ record { type = latent_u32; n_bits = 30; val = 12345678 }
    ∷ []

write_fields-read_fields_example :
    (out : BitWriter) × (r' : BitReader) × (write_fields writer fields ≡ ok out)
    × (value out.buf ≡ value writer.buf + 2 ^ 3 * packed fields)
    × (read_fields (record reader { src = out.buf }) fields ≡ ok (map Field.val fields, r'))
    × (bit_idx r' ≡ position out)
write_fields-read_fields_example =
    write_fields-read_fields writer reader fields
      (record { is_bytes = every_below→All 256 writer.buf refl; clear = omega arith })
      (
        record { fits = unfold bits in omega arith; small = omega arith },
        (
          record { fits = unfold bits in omega arith; small = omega arith },
          (record { fits = unfold bits in omega arith; small = omega arith }, tt),
        ),
      )
      (omega arith) refl
