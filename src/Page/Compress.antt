-- ===== src/Page/Compress.antt =====
-- pco/src/latent_chunk_compressor.rs: one latent variable of a chunk, taken apart page by page and
-- written batch by batch.
use pcodec.Common.{
  ℕ, zero, suc, ◌+◌, ◌-◌, ◌*◌, ◌/◌, if◌then◌else◌, leb, ltb, ◌==◌, not, Bool, List, length, take,
  drop, replicate,
}
use pcodec.Errors.{Result, ok, panic, ◌>>=◌}
use pcodec.Bits.{calc_max_u64s_for_writing}
use pcodec.BitWriter.{BitWriter, flush}
use pcodec.Ans.Spec.{from_weights}
use pcodec.Ans.Encoding.{Encoder, new_encoder, default_state}
use pcodec.Metadata.Bin.{Bin, max_offset_bits, weights, are_trivial}
use pcodec.Delta.Lookback.{full_batch_n}
use pcodec.Page.Symbols.{ans_interleaving}
use pcodec.Page.Table.{BinCompressionInfo, CompressionTable, from_infos}
use pcodec.Page.Dissect.{DissectedPageVar, Scratch, new_scratch, dissect_latent_batch, slice}
use pcodec.Page.Write.{write_short_uints, write_uints}

-- 256 numbers of 16 bytes and 2 bytes of ANS, and 25 bytes that a write may overshoot.
abbrev pub page_padding : ℕ
page_padding = 256 * (16 + 2) + 25

pub record TrainedBins : Type 0 where
  pub infos : List BinCompressionInfo
  pub ans_size_log : ℕ
  pub counts : List ℕ

-- The average bits per latent, a float that only serves for estimates, are left out.
pub record LatentChunkCompressor : Type 0 where
  pub table : CompressionTable
  pub encoder : Encoder
  pub is_trivial : Bool
  pub needs_ans : Bool
  pub max_u64s_per_offset : ℕ
  pub latents : List ℕ

unfoldable pub new_latent_chunk_compressor :
    ℕ
    → (List BinCompressionInfo → List BinCompressionInfo)
    → TrainedBins
    → List Bin
    → List ℕ
    → Result LatentChunkCompressor
new_latent_chunk_compressor w sort_by_lower trained bins latents = do
  let table = from_infos w sort_by_lower trained.infos
  ans_spec ← from_weights trained.ans_size_log (weights bins)
  encoder ← new_encoder ans_spec
  ok (record {
    table = table;
    encoder = encoder;
    is_trivial = are_trivial bins;
    needs_ans = not (length bins == 1);
    max_u64s_per_offset = calc_max_u64s_for_writing (max_offset_bits bins);
    latents = latents;
  })

-- The source leaves the arrays uninitialised; they hold zeros here.
unfoldable pub uninit_dissected_page_var : ℕ → ℕ → DissectedPageVar
uninit_dissected_page_var n ans_default_state = record {
  ans_vals = replicate n 0;
  ans_bits = replicate n 0;
  offsets = replicate n 0;
  offset_bits = replicate n 0;
  ans_final_states = replicate ans_interleaving ans_default_state;
}

-- The batches from the last to the first, with the number of them that are left.
unfoldable pub dissect_batches :
    CompressionTable → Encoder → List ℕ → ℕ → Scratch → DissectedPageVar → Result DissectedPageVar
dissect_batches table encoder page zero s dst = ok dst
dissect_batches table encoder page (suc batch_idx) s dst = do
  let base_i = batch_idx * full_batch_n
  (s', dst') ←
      dissect_latent_batch table encoder s (take full_batch_n (drop base_i page)) base_i dst
  dissect_batches table encoder page batch_idx s' dst'

unfoldable pub dissect_page : LatentChunkCompressor → ℕ → ℕ → Result DissectedPageVar
unfolding uninit_dissected_page_var dissect_batches new_scratch
dissect_page lcc start end =
    if lcc.is_trivial then ok (uninit_dissected_page_var 0 (default_state lcc.encoder)) else do
      page ← slice start end lcc.latents
      dissect_batches lcc.table lcc.encoder page ((length page + full_batch_n - 1) / full_batch_n)
          new_scratch (uninit_dissected_page_var (end - start) (default_state lcc.encoder))

-- The match on how many u64s an offset takes.
unfoldable pub write_offsets : ℕ → List ℕ → List ℕ → ℕ → ℕ → List ℕ → Result (ℕ × ℕ × List ℕ)
write_offsets max_u64s offsets offset_bits stale past buf =
    if max_u64s == 0
    then ok (stale, past, buf)
    else if max_u64s == 1
    then write_short_uints offsets offset_bits stale past buf
    else if leb max_u64s 3
    then write_uints max_u64s offsets offset_bits stale past buf
    else panic

unfoldable pub write_dissected_batch :
    LatentChunkCompressor → DissectedPageVar → ℕ → BitWriter → Result BitWriter
unfolding write_offsets
write_dissected_batch lcc d batch_start writer =
    if ltb (length writer.buf) page_padding then panic else do
      wr ← flush writer
      (if leb (length d.offsets) batch_start then ok wr else do
        (stale, past, buf) ←
            (if lcc.needs_ans
              then write_short_uints (drop batch_start d.ans_vals) (drop batch_start d.ans_bits)
                  wr.stale_byte_idx wr.bits_past_byte wr.buf
              else ok (wr.stale_byte_idx, wr.bits_past_byte, wr.buf))
        (stale', past', buf') ←
            write_offsets lcc.max_u64s_per_offset (drop batch_start d.offsets)
              (drop batch_start d.offset_bits) stale past buf
        ok (record wr { stale_byte_idx = stale'; bits_past_byte = past'; buf = buf' }))
