-- ===== src/Standalone/Tests.antt =====
-- A varint behind three bits that a writer holds.
use pcodec.Common.{◌≡◌, refl, arith, [], ◌∷◌, replicate, every_below→All}
use pcodec.Errors.{ok}
use pcodec.BitReader.{BitReader, bit_idx}
use pcodec.BitWriter.{BitWriter, finish_byte}
use pcodec.BitWriter.Fields.{IsClear, position}
use pcodec.Standalone.Varint.{write_varint, read_varint}
use pcodec.Standalone.VarintTrip.{write_varint-read_varint}

abbrev writer : BitWriter
writer = record { buf = 5 ∷ replicate 31 0; stale_byte_idx = 0; bits_past_byte = 3; dst = [] }

abbrev reader : BitReader
reader = record { src = []; unpadded_bit_size = 256; stale_byte_idx = 0; bits_past_byte = 3 }

writer-IsClear : IsClear writer
writer-IsClear = record { is_bytes = every_below→All 256 writer.buf refl; clear = omega arith }

write_varint-read_varint_example :
    (out : BitWriter) × (r' : BitReader) × (write_varint 1000 writer ≡ ok out)
    × (read_varint (record reader { src = out.buf }) ≡ ok (1000, r'))
    × (bit_idx r' ≡ position (finish_byte out))
write_varint-read_varint_example =
    write_varint-read_varint 1000 writer reader (omega arith) writer-IsClear (omega arith) refl
      (omega arith)
