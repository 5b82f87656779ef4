-- ===== src/Page/Offsets.antt =====
-- The offsets of a batch in pco/src/latent_page_decompressor.rs, on latents of `w` bits.
use pcodec.Common.{ℕ, ◌+◌, ◌/◌, ◌%◌, if◌then◌else◌, ltb, List, [], ◌∷◌, length, take}
use pcodec.Errors.{Result, ok, panic, ◌>>=◌}
use pcodec.Slice.{index}
use pcodec.BitReader.{BitReader, bit_idx, read_uint_at}
use pcodec.Latent.{wrapping_add}
use pcodec.Delta.Choose.{sub_usize}
use pcodec.Page.Symbols.{State}

module _ (w : ℕ) where
  -- The loop over the destination, with the bits and the sums of bits of the scratch arrays.
  unfoldable pub offsets_each : List ℕ → ℕ → ℕ → List ℕ → List ℕ → List ℕ → Result (List ℕ)
  offsets_each src max_u64s base_bit_idx (d ∷ dst) (offset_bits ∷ bits) (csum ∷ csums) = do
    let bit_idx = base_bit_idx + csum
    x ← read_uint_at w src max_u64s (bit_idx / 8) (bit_idx % 8) offset_bits
    rest ← offsets_each src max_u64s base_bit_idx dst bits csums
    ok (x ∷ rest)
  offsets_each src max_u64s base_bit_idx [] bits csums = ok []
  offsets_each src max_u64s base_bit_idx (d ∷ dst) [] csums = ok (d ∷ dst)
  offsets_each src max_u64s base_bit_idx (d ∷ dst) (offset_bits ∷ bits) [] = ok (d ∷ dst)

  unfoldable pub decompress_offsets : ℕ → State → BitReader → List ℕ → Result (BitReader × List ℕ)
  unfolding offsets_each
  decompress_offsets max_u64s st r dst = do
    let base_bit_idx = bit_idx r
    dst' ←
        offsets_each r.src max_u64s base_bit_idx dst st.offset_bits_scratch
          st.offset_bits_csum_scratch
    last ← sub_usize (length dst') 1
    csum ← index st.offset_bits_csum_scratch last
    offset_bits ← index st.offset_bits_scratch last
    let final_bit_idx = base_bit_idx + csum + offset_bits
    ok (record r { stale_byte_idx = final_bit_idx / 8; bits_past_byte = final_bit_idx % 8 }, dst')

  unfoldable pub add_each : List ℕ → List ℕ → List ℕ
  add_each (lower ∷ lowers) (x ∷ dst) = wrapping_add w x lower ∷ add_each lowers dst
  add_each [] dst = dst
  add_each (lower ∷ lowers) [] = []

  -- The slice of the lower bounds must lie in the scratch array.
  unfoldable pub add_lowers : State → List ℕ → Result (List ℕ)
  unfolding add_each
  add_lowers st dst =
      if ltb (length st.lowers_scratch) (length dst)
      then panic
      else ok (add_each (take (length dst) st.lowers_scratch) dst)
