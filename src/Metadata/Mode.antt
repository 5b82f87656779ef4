-- ===== src/Metadata/Mode.antt =====
-- pco/src/metadata/mode.rs and dyn_latent.rs, with the bit lengths of pco/src/constants.rs.
use pcodec.Common.{ℕ, ◌+◌, if◌then◌else◌, ◌==◌, Option, none, some}
use pcodec.Errors.{Result, ok, err, ◌>>=◌, corruption, compatibility}
use pcodec.Latent.{LatentType, bits}
use pcodec.BitReader.{BitReader, read_uint, read_bitlen}
use pcodec.BitWriter.{BitWriter, write_uint, write_bitlen}
use pcodec.Metadata.FormatVersion.{used_old_gcds}

abbrev pub bits_to_encode_mode_variant : ℕ
bits_to_encode_mode_variant = 4

abbrev pub bits_to_encode_quantize_k : ℕ
bits_to_encode_quantize_k = 8

-- One latent of any of the types: the constructor of the source, and its value.
pub record DynLatent : Type 0 where
  pub type : LatentType
  pub latent : ℕ

abbrev pub dyn_latent_bits : DynLatent → ℕ
dyn_latent_bits l = bits l.type

unfoldable pub read_uncompressed : LatentType → BitReader → Result (DynLatent × BitReader)
read_uncompressed t r = do
  (latent, r') ← read_uint (bits t) r (bits t)
  ok (record { type = t; latent = latent }, r')

unfoldable pub write_uncompressed : DynLatent → BitWriter → Result BitWriter
write_uncompressed l wr = write_uint (bits l.type) wr l.latent (bits l.type)

pub data Mode : Type 0 where
  classic : Mode
  int_mult float_mult : DynLatent → Mode
  float_quant : ℕ → Mode

-- The match on the variant.
unfoldable pub read_mode_variant : ℕ → LatentType → ℕ → BitReader → Result (Mode × BitReader)
unfolding read_uncompressed
read_mode_variant version t variant r =
    if variant == 0
    then ok (classic, r)
    else if variant == 1
    then (if used_old_gcds version
        then err compatibility
        else (do (base, r') ← read_uncompressed t r; ok (int_mult base, r')))
    else if variant == 2
    then (do (base, r') ← read_uncompressed t r; ok (float_mult base, r'))
    else if variant == 3
    then (do (k, r') ← read_bitlen r bits_to_encode_quantize_k; ok (float_quant k, r'))
    else err corruption

unfoldable pub read_mode : ℕ → LatentType → BitReader → Result (Mode × BitReader)
unfolding read_mode_variant
read_mode version t r = do
  (variant, r') ← read_bitlen r bits_to_encode_mode_variant
  read_mode_variant version t variant r'

unfoldable pub write_mode : Mode → BitWriter → Result BitWriter
unfolding write_uncompressed
write_mode classic wr = do wr1 ← write_bitlen wr 0 bits_to_encode_mode_variant; ok wr1
write_mode (int_mult base) wr = do
  wr1 ← write_bitlen wr 1 bits_to_encode_mode_variant
  wr2 ← write_uncompressed base wr1
  ok wr2
write_mode (float_mult base) wr = do
  wr1 ← write_bitlen wr 2 bits_to_encode_mode_variant
  wr2 ← write_uncompressed base wr1
  ok wr2
write_mode (float_quant k) wr = do
  wr1 ← write_bitlen wr 3 bits_to_encode_mode_variant
  wr2 ← write_uint 32 wr1 k bits_to_encode_quantize_k
  ok wr2

unfoldable pub primary_latent_type : Mode → LatentType → LatentType
primary_latent_type mode t = t

unfoldable pub secondary_latent_type : Mode → LatentType → Option LatentType
secondary_latent_type classic t = none
secondary_latent_type (int_mult base) t = some t
secondary_latent_type (float_mult base) t = some t
secondary_latent_type (float_quant k) t = some t

unfoldable pub mode_exact_bit_size : Mode → ℕ
mode_exact_bit_size classic = bits_to_encode_mode_variant
mode_exact_bit_size (int_mult base) = bits_to_encode_mode_variant + dyn_latent_bits base
mode_exact_bit_size (float_mult base) = bits_to_encode_mode_variant + dyn_latent_bits base
mode_exact_bit_size (float_quant k) = bits_to_encode_mode_variant + bits_to_encode_quantize_k
