-- ===== src/Page/Dissect.antt =====
-- pco/src/latent_batch_dissector.rs after the search: the latents of a batch become offsets in their
-- bins, and the symbols of the bins go through four interleaved ANS states, last one first.
use pcodec.Common.{
  ℕ, zero, suc, ◌+◌, ◌-◌, ◌*◌, ◌/◌, ◌%◌, min, if◌then◌else◌, ltb, List, [], ◌∷◌, ◌++◌, length, take,
  drop, replicate,
}
use pcodec.Errors.{Result, ok, panic, ◌>>=◌}
use pcodec.Slice.{index, assign}
use pcodec.Bits.{lowest_bits_fast}
use pcodec.Ans.Encoding.{Encoder, encode}
use pcodec.Delta.Choose.{sub_usize}
use pcodec.Delta.Lookback.{full_batch_n}
use pcodec.Page.Symbols.{ans_interleaving}
use pcodec.Page.Table.{BinCompressionInfo, CompressionTable}
use pcodec.Page.Search.{binary_search}

pub record DissectedPageVar : Type 0 where
  pub ans_vals : List ℕ
  pub ans_bits : List ℕ
  pub offsets : List ℕ
  pub offset_bits : List ℕ
  pub ans_final_states : List ℕ

-- The scratch arrays of the dissector.
pub record Scratch : Type 0 where
  pub lower_scratch : List ℕ
  pub symbol_scratch : List ℕ

unfoldable pub new_scratch : Scratch
new_scratch = record {
  lower_scratch = replicate full_batch_n 0;
  symbol_scratch = replicate full_batch_n 0;
}

-- The loop over the found indices, from the i-th on.
unfoldable pub dissect_bins :
    List BinCompressionInfo → ℕ → List ℕ → Scratch → List ℕ → Result (Scratch × List ℕ)
dissect_bins infos i [] s dst_offset_bits = ok (s, dst_offset_bits)
dissect_bins infos i (search_idx ∷ search_idxs) s dst_offset_bits = do
  info ← index infos search_idx
  lowers ← assign s.lower_scratch i info.lower
  symbols ← assign s.symbol_scratch i info.symbol
  bits ← assign dst_offset_bits i info.offset_bits
  dissect_bins infos (i + 1) search_idxs
      (record { lower_scratch = lowers; symbol_scratch = symbols }) bits

-- The subtraction must not go below zero. Offsets behind the latents stay as they are.
unfoldable pub set_offsets : List ℕ → List ℕ → List ℕ → Result (List ℕ)
set_offsets (latent ∷ latents) (lower ∷ lowers) (offset ∷ offsets) = do
  x ← sub_usize latent lower
  rest ← set_offsets latents lowers offsets
  ok (x ∷ rest)
set_offsets [] lowers offsets = ok offsets
set_offsets (latent ∷ latents) [] offsets = ok offsets
set_offsets (latent ∷ latents) (lower ∷ lowers) [] = ok []

-- What the loops of `encode_ans_in_reverse` write to.
pub record AnsOut : Type 0 where
  pub ans_vals : List ℕ
  pub ans_bits : List ℕ
  pub ans_final_states : List ℕ

module _ (encoder : Encoder) (symbols : List ℕ) where
  -- The body of both loops: the i-th symbol goes through the j-th state.
  unfoldable pub encode_symbol : ℕ → ℕ → AnsOut → Result AnsOut
  encode_symbol i j out = do
    state ← index out.ans_final_states j
    symbol ← index symbols i
    (new_state, bitlen) ← encode encoder state symbol
    vals ← assign out.ans_vals i (lowest_bits_fast 32 state bitlen)
    bits ← assign out.ans_bits i bitlen
    states ← assign out.ans_final_states j new_state
    ok (record { ans_vals = vals; ans_bits = bits; ans_final_states = states })

  -- `for j in (0..left).rev()`.
  unfoldable pub encode_group : ℕ → ℕ → AnsOut → Result AnsOut
  unfolding encode_symbol
  encode_group base_i zero out = ok out
  encode_group base_i (suc left) out = do
    out' ← encode_symbol (base_i + left) left out
    encode_group base_i left out'

  -- The main loop over whole groups, with the number of them that are left.
  unfoldable pub encode_groups : ℕ → AnsOut → Result AnsOut
  unfolding encode_group
  encode_groups zero out = ok out
  encode_groups (suc left) out = do
    out' ← encode_group (left * ans_interleaving) ans_interleaving out
    encode_groups left out'

  unfoldable pub encode_ans_in_reverse : AnsOut → Result AnsOut
  unfolding encode_groups
  encode_ans_in_reverse out = do
    let final_base_i = length out.ans_vals / ans_interleaving * ans_interleaving
    let final_j = length out.ans_vals % ans_interleaving
    out' ← encode_group final_base_i final_j out
    encode_groups (length out.ans_vals / ans_interleaving) out'

-- `slice[base_i..end_i]`, and the whole with that part replaced.
abbrev pub slice : ℕ → ℕ → List ℕ → Result (List ℕ)
slice base_i end_i xs =
    if ltb end_i base_i
    then panic
    else if ltb (length xs) end_i
    then panic
    else ok (take (end_i - base_i) (drop base_i xs))

abbrev pub with_slice : ℕ → ℕ → List ℕ → List ℕ → List ℕ
with_slice base_i end_i part xs = take base_i xs ++ (part ++ drop end_i xs)

unfoldable pub dissect_latent_batch :
    CompressionTable
    → Encoder
    → Scratch
    → List ℕ
    → ℕ
    → DissectedPageVar
    → Result (Scratch × DissectedPageVar)
unfolding dissect_bins set_offsets encode_ans_in_reverse
dissect_latent_batch table encoder s latents base_i dst = do
  search_idxs ← binary_search table latents
  let end_i = min (base_i + full_batch_n) (length dst.ans_vals)
  batch_idxs ← slice 0 (length latents) search_idxs
  dst_bits ← slice base_i end_i dst.offset_bits
  (s', bits) ← dissect_bins table.infos 0 batch_idxs s dst_bits
  dst_offsets ← slice base_i end_i dst.offsets
  offsets ← set_offsets latents s'.lower_scratch dst_offsets
  vals ← slice base_i end_i dst.ans_vals
  val_bits ← slice base_i end_i dst.ans_bits
  out ←
      encode_ans_in_reverse encoder s'.symbol_scratch
        (record { ans_vals = vals; ans_bits = val_bits; ans_final_states = dst.ans_final_states })
  ok (
    s',
    record {
      ans_vals = with_slice base_i end_i out.ans_vals dst.ans_vals;
      ans_bits = with_slice base_i end_i out.ans_bits dst.ans_bits;
      offsets = with_slice base_i end_i offsets dst.offsets;
      offset_bits = with_slice base_i end_i bits dst.offset_bits;
      ans_final_states = out.ans_final_states;
    },
  )
