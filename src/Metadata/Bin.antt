-- ===== src/Metadata/Bin.antt =====
-- pco/src/metadata/bin.rs and bins.rs, and the loops over a batch of bins in
-- pco/src/metadata/chunk_latent_var.rs.
use pcodec.Common.{
  ℕ, zero, suc, ◌+◌, max, if◌then◌else◌, ltb, ◌==◌, Bool, true, false, List, [], ◌∷◌, ◌++◌, map,
}
use pcodec.Common.Pow.{ilog2}
use pcodec.Machine.{sub_u32}
use pcodec.Errors.{Result, ok, err, ◌>>=◌, ◌>>◌, corruption}
use pcodec.Bits.{bits_to_encode_offset_bits}
use pcodec.Latent.{LatentType, bits}
use pcodec.BitReader.{BitReader, read_uint, read_bitlen, check_in_bounds}
use pcodec.BitWriter.{BitWriter, write_uint, write_bitlen}

pub record Bin : Type 0 where
  pub weight : ℕ
  pub lower : ℕ
  pub offset_bits : ℕ

unfoldable pub bin_exact_bit_size : LatentType → ℕ → ℕ
bin_exact_bit_size t ans_size_log = ans_size_log + bits t + bits_to_encode_offset_bits (bits t)

unfoldable pub worst_case_bits_per_latent : Bin → ℕ → ℕ
worst_case_bits_per_latent bin ans_size_log =
    sub_u32 (bin.offset_bits + ans_size_log) (ilog2 bin.weight)

unfoldable pub are_trivial : List Bin → Bool
are_trivial [] = true
are_trivial (bin ∷ []) = bin.offset_bits == 0
are_trivial (bin ∷ bin' ∷ bins) = false

unfoldable pub max_offset_bits : List Bin → ℕ
max_offset_bits [] = 0
max_offset_bits (bin ∷ bins) = max bin.offset_bits (max_offset_bits bins)

unfoldable pub weights : List Bin → List ℕ
weights bins = map Bin.weight bins

module _ (t : LatentType) (ans_size_log : ℕ) where
  -- One turn of the loop. The weight is below 2 ^ ans_size_log before 1 is added.
  unfoldable pub read_bin : BitReader → Result (Bin × BitReader)
  read_bin r = do
    (weight, r1) ← read_uint 32 r ans_size_log
    (lower, r2) ← read_uint (bits t) r1 (bits t)
    (offset_bits, r3) ← read_bitlen r2 (bits_to_encode_offset_bits (bits t))
    (if ltb (bits t) offset_bits
        then check_in_bounds r3 >> err corruption
        else ok (record { weight = weight + 1; lower = lower; offset_bits = offset_bits }, r3))

  -- The bins are pushed behind those that `dst` holds already.
  unfoldable pub read_bin_batch : ℕ → List Bin → BitReader → Result (List Bin × BitReader)
  unfolding read_bin
  read_bin_batch zero dst r = ok (dst, r)
  read_bin_batch (suc left) dst r = do
    (bin, r') ← read_bin r
    read_bin_batch left (dst ++ (bin ∷ [])) r'

  unfoldable pub write_bin_batch : List Bin → BitWriter → Result BitWriter
  write_bin_batch [] wr = ok wr
  write_bin_batch (bin ∷ bins) wr = do
    wr1 ← write_uint 32 wr (sub_u32 bin.weight 1) ans_size_log
    wr2 ← write_uint (bits t) wr1 bin.lower (bits t)
    wr3 ← write_bitlen wr2 bin.offset_bits (bits_to_encode_offset_bits (bits t))
    write_bin_batch bins wr3
