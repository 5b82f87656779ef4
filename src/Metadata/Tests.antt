-- ===== src/Metadata/Tests.antt =====
-- Metadata behind three bits that a writer holds.
use pcodec.Common.{
  List, All, ◌⊎◌, ℕ, map, some, none, ◌+◌, ◌^◌, ◌≡◌, refl, arith, true, [], ◌∷◌, replicate,
  every_below→All,
}
use pcodec.Errors.{ok, panic}
use pcodec.Latent.{latent_u64, bits}
use pcodec.BitReader.{BitReader, bit_idx}
use pcodec.BitWriter.{BitWriter}
use pcodec.BitWriter.Fields.{IsClear, position}
use pcodec.Metadata.DeltaEncoding.{
  LatentVarKey, delta, primary, secondary, DeltaEncoding, lookback, exact_bit_size,
  read_delta_encoding, write_delta_encoding,
}
use pcodec.Metadata.DeltaEncodingTrip.{write_delta_encoding-read_delta_encoding}
use pcodec.Metadata.PerLatentVar.{
  PerLatentVar, present, get_var, enumerated, zip_exact, AreZipped, IsOneSided, enumerated-get_var,
  zip_exact-get_var,
}
use pcodec.Metadata.Bin.{Bin, write_bin_batch, read_bin_batch, bin_exact_bit_size}
use pcodec.Metadata.BinTrip.{write_bin_batch-read_bin_batch}
use pcodec.Bits.{bits_to_encode_offset_bits}
use pcodec.Latent.{latent_u16}
use pcodec.Machine.{leading_zeros}
use pcodec.Common.Pow.{ilog2}
use pcodec.Metadata.Mode.{Mode, int_mult, mode_exact_bit_size, read_mode, write_mode}
use pcodec.Metadata.ModeTrip.{write_mode-read_mode}

abbrev writer : BitWriter
writer = record { buf = 5 ∷ replicate 31 0; stale_byte_idx = 0; bits_past_byte = 3; dst = [] }

abbrev reader : BitReader
reader = record { src = []; unpadded_bit_size = 256; stale_byte_idx = 0; bits_past_byte = 3 }

writer-IsClear : IsClear writer
writer-IsClear = record { is_bytes = every_below→All 256 writer.buf refl; clear = omega arith }

abbrev encoding : DeltaEncoding
encoding = lookback (record { state_n_log = 3; window_n_log = 15; secondary_uses_delta = true })

write_delta_encoding-read_delta_encoding_example :
    (out : BitWriter) × (r' : BitReader) × (write_delta_encoding encoding writer ≡ ok out)
    × (position out ≡ 17)
    × (read_delta_encoding 3 (record reader { src = out.buf }) ≡ ok (encoding, r'))
    × (bit_idx r' ≡ position out)
unfolding exact_bit_size
write_delta_encoding-read_delta_encoding_example =
    write_delta_encoding-read_delta_encoding encoding 3 writer reader
      (omega arith, omega arith, omega arith, omega arith) (omega arith) writer-IsClear
      (omega arith) refl

abbrev mode : Mode
mode = int_mult (record { type = latent_u64; latent = 2 ^ 40 + 7 })

write_mode-read_mode_example :
    (out : BitWriter) × (r' : BitReader) × (write_mode mode writer ≡ ok out)
    × (position out ≡ 71)
    × (read_mode 3 latent_u64 (record reader { src = out.buf }) ≡ ok (mode, r'))
    × (bit_idx r' ≡ position out)
unfolding bits mode_exact_bit_size
write_mode-read_mode_example =
    write_mode-read_mode latent_u64 mode 3 writer reader (refl, omega arith) (omega arith)
      writer-IsClear (omega arith) refl

abbrev vars : PerLatentVar ℕ
vars = record { delta_var = none; primary_var = 7; secondary_var = some 2 }

enumerated-get_var_example :
    (map (λ e. e.0) (enumerated vars) ≡ present vars (delta ∷ primary ∷ secondary ∷ []))
    × All (λ e. get_var vars e.0 ≡ some e.1) (enumerated vars)
enumerated-get_var_example = enumerated-get_var vars

-- The other side has no deltas.
abbrev other_vars : PerLatentVar ℕ
other_vars = record { delta_var = none; primary_var = 8; secondary_var = some 9 }

zip_exact-get_var_example :
    ((zipped : PerLatentVar (ℕ × ℕ)) × (zip_exact vars other_vars ≡ ok zipped)
      × ((key : LatentVarKey)
          → AreZipped (get_var vars key) (get_var other_vars key) (get_var zipped key)))
    ⊎ ((zip_exact vars other_vars ≡ panic)
        × ((key : LatentVarKey) × IsOneSided (get_var vars key) (get_var other_vars key)))
zip_exact-get_var_example = zip_exact-get_var vars other_vars

abbrev bins : List Bin
bins =
    record { weight = 3; lower = 40000; offset_bits = 7 }
    ∷ record { weight = 5; lower = 0; offset_bits = 16 }
    ∷ []

write_bin_batch-read_bin_batch_example :
    (out : BitWriter) × (r' : BitReader) × (write_bin_batch latent_u16 3 bins writer ≡ ok out)
    × (position out ≡ 51)
    × (read_bin_batch latent_u16 3 2 [] (record reader { src = out.buf }) ≡ ok (bins, r'))
    × (bit_idx r' ≡ position out)
unfolding bin_exact_bit_size bits bits_to_encode_offset_bits leading_zeros ilog2
write_bin_batch-read_bin_batch_example =
    write_bin_batch-read_bin_batch latent_u16 3 (omega arith) bins [] writer reader
      (
        record {
          positive = omega arith;
          weight_fits = omega arith;
          lower_fits = omega arith;
          offset_fits = omega arith;
        },
        (
          record {
            positive = omega arith;
            weight_fits = omega arith;
            lower_fits = omega arith;
            offset_fits = omega arith;
          },
          tt,
        ),
      )
      writer-IsClear (omega arith) refl
