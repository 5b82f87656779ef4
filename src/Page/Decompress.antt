-- ===== src/Page/Decompress.antt =====
-- pco/src/latent_page_decompressor.rs: one latent variable of a page, batch by batch.
use pcodec.Common.{
  ℕ, zero, suc, ◌+◌, ◌-◌, if◌then◌else◌, leb, ltb, ◌==◌, not, Bool, Option, none, some, List, [],
  ◌∷◌, ◌++◌, length, take, replicate, map,
}
use pcodec.Errors.{Result, ok, err, panic, corruption, ◌>>=◌}
use pcodec.Bits.{calc_max_u64s}
use pcodec.BitReader.{BitReader}
use pcodec.Ans.Spec.{from_weights}
use pcodec.Ans.Decoding.{Decoder, new_decoder}
use pcodec.Metadata.DeltaEncoding.{
  DeltaEncoding, no_delta, consecutive, lookback, n_latents_per_state,
}
use pcodec.Metadata.Bin.{Bin, max_offset_bits, weights, are_trivial}
use pcodec.Delta.Consecutive.{decode_consecutive_in_place}
use pcodec.Delta.Lookback.{
  full_batch_n, new_lookback_window_buffer_and_pos, decode_with_lookbacks_in_place,
}
use pcodec.Page.Symbols.{State, decompress_ans_symbols, decompress_full_ans_symbols}
use pcodec.Page.Offsets.{decompress_offsets, add_lowers}

pub record LatentPageDecompressor : Type 0 where
  pub u64s_per_offset : ℕ
  pub bin_lowers : List ℕ
  pub needs_ans : Bool
  pub decoder : Decoder
  pub delta_encoding : DeltaEncoding
  pub maybe_constant_value : Option ℕ
  pub state : State

unfoldable pub decompress_symbols :
    LatentPageDecompressor → BitReader → ℕ → Result (BitReader × State)
decompress_symbols lpd r batch_n =
    if not lpd.needs_ans
    then ok (r, lpd.state)
    else if ltb full_batch_n batch_n
    then panic
    else if batch_n == full_batch_n
    then decompress_full_ans_symbols lpd.decoder.nodes lpd.bin_lowers r lpd.state
    else decompress_ans_symbols lpd.decoder.nodes lpd.bin_lowers r batch_n lpd.state

module _ (w : ℕ) where
  -- What stands in `dst` before it is filled does not count, but for its length.
  unfoldable pub decompress_batch_pre_delta :
      LatentPageDecompressor
      → BitReader
      → List ℕ
      → Result (LatentPageDecompressor × BitReader × List ℕ)
  unfolding decompress_symbols
  decompress_batch_pre_delta lpd r [] = ok (lpd, r, [])
  decompress_batch_pre_delta lpd r (d ∷ dst) = do
    (r1, st) ← decompress_symbols lpd r (length (d ∷ dst))
    let lpd' = record lpd { state = st }
    (if ltb (calc_max_u64s w) lpd.u64s_per_offset
        then panic
        else if lpd.u64s_per_offset == 0
        then if ltb (length st.lowers_scratch) (length (d ∷ dst))
          then panic
          else ok (lpd', r1, take (length (d ∷ dst)) st.lowers_scratch)
        else do
          (r2, offsets) ← decompress_offsets w lpd.u64s_per_offset st r1 (d ∷ dst)
          out ← add_lowers w st offsets
          ok (lpd', r2, out))

  abbrev pub with_delta : LatentPageDecompressor → List ℕ → ℕ → LatentPageDecompressor
  with_delta lpd delta_state pos = record lpd {
    state = record lpd.state { delta_state = delta_state; delta_state_pos = pos };
  }

  -- The match on the delta encoding, on the whole of `dst`.
  unfoldable pub undo_delta :
      LatentPageDecompressor → Option (List ℕ) → List ℕ → Result (LatentPageDecompressor × List ℕ)
  undo_delta lpd delta_latents dst = elim lpd.delta_encoding [
    | no_delta ↦ ok (lpd, dst)
    | consecutive config ↦
        let (moments, out) = decode_consecutive_in_place w lpd.state.delta_state dst in
        ok (with_delta lpd moments lpd.state.delta_state_pos, out)
    | lookback config ↦ elim delta_latents [
      | none ↦ panic
      | some lookbacks ↦ do
        (oob, pos, buffer, out) ←
            decode_with_lookbacks_in_place w config lookbacks lpd.state.delta_state_pos
              lpd.state.delta_state dst
        (if oob then err corruption else ok (with_delta lpd buffer pos, out))
    ]
  ]

  unfoldable pub decompress_batch :
      LatentPageDecompressor
      → Option (List ℕ)
      → ℕ
      → BitReader
      → List ℕ
      → Result (LatentPageDecompressor × BitReader × List ℕ)
  unfolding decompress_batch_pre_delta undo_delta
  decompress_batch lpd delta_latents n_remaining_in_page r dst = do
    let n_remaining_pre_delta = n_remaining_in_page - n_latents_per_state lpd.delta_encoding
    let whole = leb (length dst) n_remaining_pre_delta
    let pre_delta_len = if whole then length dst else n_remaining_pre_delta
    let rest = if whole then [] else replicate (length dst - n_remaining_pre_delta) 0
    (lpd1, r1, latents) ← decompress_batch_pre_delta lpd r (take pre_delta_len dst)
    (lpd2, out) ← undo_delta lpd1 delta_latents (latents ++ rest)
    ok (lpd2, r1, out)

-- The sums 0, bits, 2 * bits, … that are set once for a single bin.
abbrev pub csums : ℕ → ℕ → ℕ → List ℕ
csums bits zero csum = []
csums bits (suc left) csum = csum ∷ csums bits left (csum + bits)

unfoldable pub first_state : List Bin → List ℕ → List ℕ → ℕ → State
first_state (bin ∷ []) ans_final_state_idxs delta_state pos = record {
  offset_bits_csum_scratch = csums bin.offset_bits full_batch_n 0;
  offset_bits_scratch = replicate full_batch_n bin.offset_bits;
  lowers_scratch = replicate full_batch_n bin.lower;
  ans_state_idxs = ans_final_state_idxs;
  delta_state = delta_state;
  delta_state_pos = pos;
}
first_state bins ans_final_state_idxs delta_state pos = record {
  offset_bits_csum_scratch = replicate full_batch_n 0;
  offset_bits_scratch = replicate full_batch_n 0;
  lowers_scratch = replicate full_batch_n 0;
  ans_state_idxs = ans_final_state_idxs;
  delta_state = delta_state;
  delta_state_pos = pos;
}

-- The value that all latents have, where there is at most one bin, without offsets or deltas.
unfoldable pub constant_value : List Bin → DeltaEncoding → Option ℕ
constant_value (bin ∷ bins) no_delta = if are_trivial (bin ∷ bins) then some bin.lower else none
constant_value [] encoding = none
constant_value (bin ∷ bins) (consecutive config) = none
constant_value (bin ∷ bins) (lookback config) = none

unfoldable pub working_delta_state : ℕ → DeltaEncoding → List ℕ → Result (List ℕ × ℕ)
working_delta_state w no_delta stored = ok (stored, 0)
working_delta_state w (consecutive config) stored = ok (stored, 0)
working_delta_state w (lookback config) stored = new_lookback_window_buffer_and_pos w config stored

unfoldable pub create :
    ℕ → ℕ → List Bin → DeltaEncoding → List ℕ → List ℕ → Result LatentPageDecompressor
unfolding first_state constant_value working_delta_state
create w ans_size_log bins delta_encoding ans_final_state_idxs stored_delta_state = do
  spec ← from_weights ans_size_log (weights bins)
  decoder ← new_decoder spec (map Bin.offset_bits bins)
  (delta_state, pos) ← working_delta_state w delta_encoding stored_delta_state
  ok (record {
    u64s_per_offset = calc_max_u64s (max_offset_bits bins);
    bin_lowers = map Bin.lower bins;
    needs_ans = not (length bins == 1);
    decoder = decoder;
    delta_encoding = delta_encoding;
    maybe_constant_value = constant_value bins delta_encoding;
    state = first_state bins ans_final_state_idxs delta_state pos;
  })
