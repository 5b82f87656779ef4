-- ===== src/Metadata/DeltaEncoding.antt =====
-- pco/src/metadata/delta_encoding.rs, with the bit lengths of pco/src/constants.rs and the keys of
-- pco/src/metadata/per_latent_var.rs.
use pcodec.Common.{ℕ, ◌+◌, if◌then◌else◌, ltb, ◌==◌, Bool, true, false, Option, none, some}
use pcodec.Machine.{sub_u32, shl}
use pcodec.Errors.{Result, ok, err, ◌>>=◌, corruption}
use pcodec.Latent.{LatentType, latent_u32}
use pcodec.BitReader.{BitReader, read_usize, read_bitlen, read_bool}
use pcodec.BitWriter.{BitWriter, write_usize, write_bitlen, write_bool}
use pcodec.Metadata.FormatVersion.{supports_delta_variants}

abbrev pub bits_to_encode_delta_encoding_variant : ℕ
bits_to_encode_delta_encoding_variant = 4

abbrev pub bits_to_encode_delta_encoding_order : ℕ
bits_to_encode_delta_encoding_order = 3

abbrev pub bits_to_encode_lz_delta_window_n_log : ℕ
bits_to_encode_lz_delta_window_n_log = 5

abbrev pub bits_to_encode_lz_delta_state_n_log : ℕ
bits_to_encode_lz_delta_state_n_log = 4

pub data LatentVarKey : Type 0 where
  delta primary secondary : LatentVarKey

pub record DeltaConsecutiveConfig : Type 0 where
  pub order : ℕ
  pub secondary_uses_delta : Bool

pub record DeltaLookbackConfig : Type 0 where
  pub state_n_log : ℕ
  pub window_n_log : ℕ
  pub secondary_uses_delta : Bool

unfoldable pub state_n : DeltaLookbackConfig → ℕ
state_n config = shl 64 1 config.state_n_log

unfoldable pub window_n : DeltaLookbackConfig → ℕ
window_n config = shl 64 1 config.window_n_log

-- The constructor None of the source is `no_delta`.
pub data DeltaEncoding : Type 0 where
  no_delta : DeltaEncoding
  consecutive : DeltaConsecutiveConfig → DeltaEncoding
  lookback : DeltaLookbackConfig → DeltaEncoding

unfoldable pub read_from_pre_v3 : BitReader → Result (DeltaEncoding × BitReader)
read_from_pre_v3 r = do
  (order, r') ← read_usize r bits_to_encode_delta_encoding_order
  ok (
    (if order == 0
        then no_delta
        else consecutive (record { order = order; secondary_uses_delta = false })),
    r',
  )

unfoldable pub read_consecutive : BitReader → Result (DeltaEncoding × BitReader)
read_consecutive r = do
  (order, r1) ← read_usize r bits_to_encode_delta_encoding_order
  (uses_delta, r2) ← (if order == 0 then err corruption else read_bool r1)
  ok (consecutive (record { order = order; secondary_uses_delta = uses_delta }), r2)

unfoldable pub read_lookback : BitReader → Result (DeltaEncoding × BitReader)
read_lookback r = do
  (window, r1) ← read_bitlen r bits_to_encode_lz_delta_window_n_log
  let window_n_log = 1 + window
  (state_n_log, r2) ← read_bitlen r1 bits_to_encode_lz_delta_state_n_log
  (uses_delta, r3) ← (if ltb window_n_log state_n_log then err corruption else read_bool r2)
  ok (
    lookback (record {
      state_n_log = state_n_log;
      window_n_log = window_n_log;
      secondary_uses_delta = uses_delta;
    }),
    r3,
  )

-- The match on the variant.
unfoldable pub read_variant : ℕ → BitReader → Result (DeltaEncoding × BitReader)
unfolding read_consecutive read_lookback
read_variant variant r =
    if variant == 0
    then ok (no_delta, r)
    else if variant == 1
    then read_consecutive r
    else if variant == 2
    then read_lookback r
    else err corruption

unfoldable pub read_delta_encoding : ℕ → BitReader → Result (DeltaEncoding × BitReader)
unfolding read_from_pre_v3 read_variant
read_delta_encoding version r =
    if supports_delta_variants version
    then (do
      (variant, r') ← read_bitlen r bits_to_encode_delta_encoding_variant
      read_variant variant r')
    else read_from_pre_v3 r

unfoldable pub write_delta_encoding : DeltaEncoding → BitWriter → Result BitWriter
write_delta_encoding no_delta wr = do
  wr1 ← write_bitlen wr 0 bits_to_encode_delta_encoding_variant
  ok wr1
write_delta_encoding (consecutive config) wr = do
  wr1 ← write_bitlen wr 1 bits_to_encode_delta_encoding_variant
  wr2 ← write_usize wr1 config.order bits_to_encode_delta_encoding_order
  wr3 ← write_bool wr2 config.secondary_uses_delta
  ok wr3
write_delta_encoding (lookback config) wr = do
  wr1 ← write_bitlen wr 2 bits_to_encode_delta_encoding_variant
  wr2 ← write_bitlen wr1 (sub_u32 config.window_n_log 1) bits_to_encode_lz_delta_window_n_log
  wr3 ← write_bitlen wr2 config.state_n_log bits_to_encode_lz_delta_state_n_log
  wr4 ← write_bool wr3 config.secondary_uses_delta
  ok wr4

unfoldable pub latent_type : DeltaEncoding → Option LatentType
latent_type no_delta = none
latent_type (consecutive config) = none
latent_type (lookback config) = some latent_u32

unfoldable pub applies_to_latent_var : DeltaEncoding → LatentVarKey → Bool
applies_to_latent_var encoding delta = false
applies_to_latent_var encoding primary = true
applies_to_latent_var no_delta secondary = false
applies_to_latent_var (consecutive config) secondary = config.secondary_uses_delta
applies_to_latent_var (lookback config) secondary = config.secondary_uses_delta

unfoldable pub for_latent_var : DeltaEncoding → LatentVarKey → DeltaEncoding
unfolding applies_to_latent_var
for_latent_var encoding key = if applies_to_latent_var encoding key then encoding else no_delta

unfoldable pub n_latents_per_state : DeltaEncoding → ℕ
n_latents_per_state no_delta = 0
n_latents_per_state (consecutive config) = config.order
n_latents_per_state (lookback config) = shl 64 1 config.state_n_log

unfoldable pub exact_bit_size : DeltaEncoding → ℕ
exact_bit_size no_delta = bits_to_encode_delta_encoding_variant
exact_bit_size (consecutive config) =
    bits_to_encode_delta_encoding_variant + (bits_to_encode_delta_encoding_order + 1)
exact_bit_size (lookback config) =
    bits_to_encode_delta_encoding_variant
    + (bits_to_encode_lz_delta_window_n_log + bits_to_encode_lz_delta_state_n_log + 1)
