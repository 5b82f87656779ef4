-- ===== src/Page/Write.antt =====
-- Writing the numbers of a batch in pco/src/latent_chunk_compressor.rs.
use pcodec.Common.{ℕ, ◌+◌, ◌*◌, ◌/◌, ◌%◌, ◌^◌, bit_or, List, [], ◌∷◌, take}
use pcodec.Machine.{shl}
use pcodec.Errors.{Result, ok, ◌>>=◌}
use pcodec.Traps.{shift_right}
use pcodec.BitReader.{u64_at}
use pcodec.BitWriter.{write_u64_to, write_uint_to}
use pcodec.Delta.Lookback.{full_batch_n}

-- The loop with the u64 that is being filled. Shifting it by 64 is the overflow that the source's comment
-- warns of.
unfoldable pub write_each_short : List ℕ → List ℕ → ℕ → ℕ → ℕ → List ℕ → Result (ℕ × ℕ × List ℕ)
unfolding shift_right
write_each_short (val ∷ vals) (bitlen ∷ bitlens) target stale_byte_idx bits_past_byte dst = do
  let bytes_added = bits_past_byte / 8
  let stale = stale_byte_idx + bytes_added
  let past = bits_past_byte % 8
  shifted ← shift_right 64 target (bytes_added * 8)
  let target' = bit_or shifted (shl 64 (val % 2 ^ 64) past)
  dst' ← write_u64_to target' stale dst
  write_each_short vals bitlens target' stale (past + bitlen) dst'
write_each_short [] bitlens target stale_byte_idx bits_past_byte dst =
    ok (stale_byte_idx, bits_past_byte, dst)
write_each_short (val ∷ vals) [] target stale_byte_idx bits_past_byte dst =
    ok (stale_byte_idx, bits_past_byte, dst)

unfoldable pub write_short_uints : List ℕ → List ℕ → ℕ → ℕ → List ℕ → Result (ℕ × ℕ × List ℕ)
unfolding write_each_short
write_short_uints vals bitlens stale_byte_idx bits_past_byte dst = do
  let stale = stale_byte_idx + bits_past_byte / 8
  target ← u64_at dst stale
  write_each_short (take full_batch_n vals) (take full_batch_n bitlens) target stale
      (bits_past_byte % 8) dst

unfoldable pub write_each : ℕ → List ℕ → List ℕ → ℕ → ℕ → List ℕ → Result (ℕ × ℕ × List ℕ)
write_each max_u64s (val ∷ vals) (bitlen ∷ bitlens) stale_byte_idx bits_past_byte dst = do
  let stale = stale_byte_idx + bits_past_byte / 8
  let past = bits_past_byte % 8
  dst' ← write_uint_to max_u64s val stale past dst
  write_each max_u64s vals bitlens stale (past + bitlen) dst'
write_each max_u64s [] bitlens stale_byte_idx bits_past_byte dst =
    ok (stale_byte_idx, bits_past_byte, dst)
write_each max_u64s (val ∷ vals) [] stale_byte_idx bits_past_byte dst =
    ok (stale_byte_idx, bits_past_byte, dst)

-- `MAX_U64S` is the first argument.
unfoldable pub write_uints : ℕ → List ℕ → List ℕ → ℕ → ℕ → List ℕ → Result (ℕ × ℕ × List ℕ)
unfolding write_each
write_uints max_u64s vals bitlens =
    write_each max_u64s (take full_batch_n vals) (take full_batch_n bitlens)
