-- ===== src/Metadata/BinTrip.antt =====
-- A batch of bins of pco/src/metadata/chunk_latent_var.rs, written and read again.
use pcodec.Common.{
  ℕ, ◌+◌, ◌-◌, ◌*◌, ◌/◌, ◌^◌, ◌≤◌, ◌<◌, ◌≡◌, refl, ap, ◌∙◌, arith, le→ltb, List, [], ◌∷◌, ◌++◌,
  length, All, append_assoc, append-nil,
}
use pcodec.Common.Pow.{pow_mono, ilog2}
use pcodec.Machine.{sub_u32, leading_zeros}
use pcodec.Errors.{ok, ◌>>=◌}
use pcodec.Bits.{bits_to_encode_offset_bits}
use pcodec.Latent.{LatentType, latent_u16, latent_u32, latent_u64, bits}
use pcodec.BitReader.{BitReader, bit_idx, read_uint, read_bitlen}
use pcodec.BitReader.Reading.{advance}
use pcodec.BitWriter.{BitWriter, write_uint, write_bitlen}
use pcodec.BitWriter.Fields.{
  Field, IsField, IsClear, position, total_bits, write_fields, write_fields_lem,
}
use pcodec.BitWriter.Holds.{Holds, take_field, write_fields-Holds}
use pcodec.Metadata.Bin.{Bin, bin_exact_bit_size, read_bin, read_bin_batch, write_bin_batch}

abbrev offset_bits_bits : LatentType → ℕ
offset_bits_bits t = bits_to_encode_offset_bits (bits t)

offset_bits_bits-le : (t : LatentType) → offset_bits_bits t ≤ 32
unfolding bits bits_to_encode_offset_bits
offset_bits_bits-le latent_u16 = omega arith
offset_bits_bits-le latent_u32 = omega arith
offset_bits_bits-le latent_u64 = omega arith

-- The bit count of a type fits in the bits that bit counts are written with.
bits-lt : (t : LatentType) → bits t < 2 ^ offset_bits_bits t
unfolding bits bits_to_encode_offset_bits leading_zeros ilog2
bits-lt latent_u16 = omega arith
bits-lt latent_u32 = omega arith
bits-lt latent_u64 = omega arith

module _ (t : LatentType) (k : ℕ) where
  pub record IsBin (bin : Bin) : Type 0 where
    pub positive : 0 < bin.weight
    pub weight_fits : bin.weight ≤ 2 ^ k
    pub lower_fits : bin.lower < 2 ^ bits t
    pub offset_fits : bin.offset_bits ≤ bits t

  abbrev field_u32 : ℕ → ℕ → Field
  field_u32 n val = record { type = latent_u32; n_bits = n; val = val }

  abbrev lower_field : Bin → Field
  lower_field bin = record { type = t; n_bits = bits t; val = bin.lower }

  abbrev pub bin_fields : List Bin → List Field
  bin_fields [] = []
  bin_fields (bin ∷ bins) =
      field_u32 k (sub_u32 bin.weight 1)
      ∷ lower_field bin
      ∷ field_u32 (offset_bits_bits t) bin.offset_bits
      ∷ bin_fields bins

  module _ (small : k ≤ 14) where
    table_small : 2 ^ k ≤ 16384
    table_small = pow_mono k 14 small

    less_one : (bin : Bin) → IsBin bin → sub_u32 bin.weight 1 ≡ bin.weight - 1
    less_one bin h = let p = h.positive in let q = h.weight_fits in ground (arith, table_small)

    bin_fields-IsField : (bins : List Bin) → All IsBin bins → All IsField (bin_fields bins)
    unfolding bits
    bin_fields-IsField [] h = tt
    bin_fields-IsField (bin ∷ bins) (hb, h) = (
      record {
        fits = omega arith;
        small = rw (less_one bin hb) (omega (arith, hb.positive, hb.weight_fits));
      },
      (
        record { fits = omega arith; small = hb.lower_fits },
        (
          record { fits = offset_bits_bits-le t; small = omega (arith, hb.offset_fits, bits-lt t) },
          bin_fields-IsField bins h,
        ),
      ),
    )

    bin_fields-bin_exact_bit_size :
        (bins : List Bin) → total_bits (bin_fields bins) ≡ length bins * bin_exact_bit_size t k
    unfolding bin_exact_bit_size
    bin_fields-bin_exact_bit_size [] = omega arith
    bin_fields-bin_exact_bit_size (bin ∷ bins) = omega (arith, bin_fields-bin_exact_bit_size bins)

    write_bin_batch_lem :
        (bins : List Bin) (wr : BitWriter)
        → write_fields wr (bin_fields bins) ≡ write_bin_batch t k bins wr
    unfolding write_fields write_bin_batch write_bitlen bits
    write_bin_batch_lem [] wr = refl
    write_bin_batch_lem (bin ∷ bins) wr = λ i. do
      wr1 ← write_uint 32 wr (sub_u32 bin.weight 1) k
      wr2 ← write_uint (bits t) wr1 bin.lower (bits t)
      wr3 ← write_uint 32 wr2 bin.offset_bits (offset_bits_bits t)
      write_bin_batch_lem bins wr3 i

    take_u32 :
        (r : BitReader) (n val : ℕ) (fs : List Field)
        → Holds r (field_u32 n val ∷ fs)
        → read_uint 32 r n ≡ ok (val, advance r n)
    unfolding bits
    take_u32 r n val fs h = (take_field r (field_u32 n val) fs h).reads

    read_bin_lem :
        (r : BitReader) (bin : Bin) (bins : List Bin)
        → IsBin bin
        → Holds r (bin_fields (bin ∷ bins))
        → (r' : BitReader) × (read_bin t k r ≡ ok (bin, r'))
          × (bit_idx r' ≡ bit_idx r + bin_exact_bit_size t k)
          × Holds r' (bin_fields bins)
    unfolding read_bin read_bitlen bin_exact_bit_size
    read_bin_lem r bin bins hb holds =
        let weight = take_field r (field_u32 k (sub_u32 bin.weight 1)) _ holds in
        let r1 = advance r k in
        let lower = take_field r1 (lower_field bin) _ weight.rest in
        let r2 = advance r1 (bits t) in
        let offset = take_field r2 (field_u32 (offset_bits_bits t) bin.offset_bits) _ lower.rest in
        let back : sub_u32 bin.weight 1 + 1 ≡ bin.weight =
          rw (less_one bin hb) (omega (arith, hb.positive)) in
        (
          advance r2 (offset_bits_bits t),
          rw (
            take_u32 r k (sub_u32 bin.weight 1) _ holds,
            lower.reads,
            take_u32 r2 (offset_bits_bits t) bin.offset_bits _ lower.rest,
            le→ltb (bits t) bin.offset_bits hb.offset_fits,
            back,
          ),
          omega (arith, weight.moved, lower.moved, offset.moved),
          offset.rest,
        )

    read_bin_batch_lem :
        (bins dst : List Bin) (r : BitReader)
        → All IsBin bins
        → Holds r (bin_fields bins)
        → (r' : BitReader) × (read_bin_batch t k (length bins) dst r ≡ ok (dst ++ bins, r'))
          × (bit_idx r' ≡ bit_idx r + length bins * bin_exact_bit_size t k)
    unfolding read_bin_batch
    read_bin_batch_lem [] dst r h holds = (r, rw (append-nil dst), omega arith)
    read_bin_batch_lem (bin ∷ bins) dst r (hb, h) holds =
        let (r1, reads, moved, rest) = read_bin_lem r bin bins hb holds in
        let (r2, others, end) = read_bin_batch_lem bins (dst ++ (bin ∷ [])) r1 h rest in
        (
          r2,
          rw reads (others ∙ ap (λ bs. ok (bs, r2)) (append_assoc dst (bin ∷ []) bins)),
          omega (arith, moved, end),
        )

    -- Bins of the type, with weights from 1 to the size of a table of at most 2 ^ 14, written
    -- behind what a writer holds, take `exact_bit_size` each, without an error or a panic; a reader
    -- at the same position gets the same bins, behind those it has, and stops where the writer
    -- stopped. It needs a buffer that is clear from the writer's position on, with the padding that
    -- the reader and the writer touch.
    pub write_bin_batch-read_bin_batch :
        (bins dst : List Bin) (wr : BitWriter) (r : BitReader)
        → All IsBin bins
        → IsClear wr
        → (position wr + length bins * bin_exact_bit_size t k) / 8 + 15 ≤ length wr.buf
        → bit_idx r ≡ position wr
        → (out : BitWriter) × (r' : BitReader) × (write_bin_batch t k bins wr ≡ ok out)
          × (position out ≡ position wr + length bins * bin_exact_bit_size t k)
          × (read_bin_batch t k (length bins) dst (record r { src = out.buf })
              ≡ ok (dst ++ bins, r'))
          × (bit_idx r' ≡ position out)
    write_bin_batch-read_bin_batch bins dst wr r h clear room same =
        let fields = bin_fields-IsField bins h in
        let size = bin_fields-bin_exact_bit_size bins in
        let space : (position wr + total_bits (bin_fields bins)) / 8 + 15 ≤ length wr.buf =
          rw size room in
        let w = write_fields_lem wr (bin_fields bins) clear fields space in
        let (r', reads, moved) =
          read_bin_batch_lem bins dst (record r { src = w.out.buf }) h
            (write_fields-Holds wr r (bin_fields bins) clear fields space same w) in
        (
          w.out,
          r',
          rw (← write_bin_batch_lem bins wr) w.returns,
          omega (arith, w.moved, size),
          reads,
          omega (arith, moved, same, w.moved, size),
        )
