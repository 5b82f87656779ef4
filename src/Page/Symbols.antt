-- ===== src/Page/Symbols.antt =====
-- The symbols of a batch in pco/src/latent_page_decompressor.rs. Unchecked reads and writes of the
-- source are results `panic` out of range. `nodes` is the decoder's table.
use pcodec.Common.{ℕ, zero, suc, ◌+◌, ◌-◌, ◌/◌, ◌%◌, bit_and, List}
use pcodec.Machine.{u32, shl, ◌>>>◌}
use pcodec.Errors.{Result, ok, ◌>>=◌}
use pcodec.Slice.{index, assign}
use pcodec.BitReader.{BitReader, u64_at}
use pcodec.Ans.Decoding.{Node}
use pcodec.Delta.Lookback.{full_batch_n}

abbrev pub ans_interleaving : ℕ
ans_interleaving = 4

pub record State : Type 0 where
  pub offset_bits_csum_scratch : List ℕ
  pub offset_bits_scratch : List ℕ
  pub lowers_scratch : List ℕ
  pub ans_state_idxs : List ℕ
  pub delta_state : List ℕ
  pub delta_state_pos : ℕ

unfoldable pub set_scratch : State → ℕ → ℕ → ℕ → ℕ → Result State
set_scratch st i offset_bit_idx offset_bits lower = do
  csums ← assign st.offset_bits_csum_scratch i offset_bit_idx
  bits ← assign st.offset_bits_scratch i offset_bits
  lowers ← assign st.lowers_scratch i lower
  ok (record st {
    offset_bits_csum_scratch = csums;
    offset_bits_scratch = bits;
    lowers_scratch = lowers;
  })

-- `(packed >> bits_past_byte) as AnsState & ((1 << bits_to_read) - 1)`.
unfoldable pub ans_val_at : ℕ → ℕ → ℕ → ℕ
ans_val_at packed bits_past_byte bits_to_read =
    bit_and (u32 (packed >>> bits_past_byte)) (shl 32 1 bits_to_read - 1)

module _ (nodes : List Node) (bin_lowers : List ℕ) where
  -- One symbol of the j-th state, at the index `i` of the batch; `read` gives the bits of the page
  -- that come next, as many as the node says. It hands on that number, and `offset_bit_idx`.
  unfoldable pub handle_single_symbol : (ℕ → ℕ) → ℕ → ℕ → ℕ → State → Result (ℕ × ℕ × State)
  unfolding set_scratch
  handle_single_symbol read i j offset_bit_idx st = do
    state_idx ← index st.ans_state_idxs j
    node ← index nodes state_idx
    lower ← index bin_lowers node.symbol
    st' ← set_scratch st i offset_bit_idx node.offset_bits lower
    idxs ← assign st'.ans_state_idxs j (node.next_state_idx_base + read node.bits_to_read)
    ok (node.bits_to_read, offset_bit_idx + node.offset_bits, record st' { ans_state_idxs = idxs })

  module _ (src : List ℕ) where
    -- The loop over the batch from `i` on; it hands on the reader's place and the state.
    unfoldable pub ans_symbols : ℕ → ℕ → ℕ → ℕ → ℕ → State → Result (ℕ × ℕ × State)
    unfolding handle_single_symbol ans_val_at
    ans_symbols i zero stale_byte_idx bits_past_byte offset_bit_idx st =
        ok (stale_byte_idx, bits_past_byte, st)
    ans_symbols i (suc left) stale_byte_idx bits_past_byte offset_bit_idx st = do
      let stale = stale_byte_idx + bits_past_byte / 8
      let past = bits_past_byte % 8
      packed ← u64_at src stale
      (bits_to_read, offset_bit_idx', st') ←
          handle_single_symbol (ans_val_at packed past) i (i % ans_interleaving) offset_bit_idx st
      ans_symbols (i + 1) left stale (past + bits_to_read) offset_bit_idx' st'

    -- The states from the j-th on, as many as are left, each read from the same u64.
    unfoldable pub handle_each : ℕ → ℕ → ℕ → ℕ → ℕ → ℕ → State → Result (ℕ × ℕ × State)
    unfolding handle_single_symbol ans_val_at
    handle_each packed base_i j zero past offset_bit_idx st = ok (past, offset_bit_idx, st)
    handle_each packed base_i j (suc left) past offset_bit_idx st = do
      (bits_to_read, offset_bit_idx', st') ←
          handle_single_symbol (ans_val_at packed past) (base_i + j) j offset_bit_idx st
      handle_each packed base_i (j + 1) left (past + bits_to_read) offset_bit_idx' st'

    -- The loop over the groups of four symbols.
    unfoldable pub full_ans_symbols : ℕ → ℕ → ℕ → ℕ → ℕ → State → Result (ℕ × ℕ × State)
    unfolding handle_each
    full_ans_symbols base_i zero stale_byte_idx bits_past_byte offset_bit_idx st =
        ok (stale_byte_idx, bits_past_byte, st)
    full_ans_symbols base_i (suc left) stale_byte_idx bits_past_byte offset_bit_idx st = do
      let stale = stale_byte_idx + bits_past_byte / 8
      let past = bits_past_byte % 8
      packed ← u64_at src stale
      (past', offset_bit_idx', st') ←
          handle_each packed base_i 0 ans_interleaving past offset_bit_idx st
      full_ans_symbols (base_i + ans_interleaving) left stale past' offset_bit_idx' st'

  unfoldable pub decompress_ans_symbols : BitReader → ℕ → State → Result (BitReader × State)
  unfolding ans_symbols
  decompress_ans_symbols r batch_n st = do
    (stale, past, st') ← ans_symbols r.src 0 batch_n r.stale_byte_idx r.bits_past_byte 0 st
    ok (record r { stale_byte_idx = stale; bits_past_byte = past }, st')

  unfoldable pub decompress_full_ans_symbols : BitReader → State → Result (BitReader × State)
  unfolding full_ans_symbols
  decompress_full_ans_symbols r st = do
    (stale, past, st') ←
        full_ans_symbols r.src 0 (full_batch_n / ans_interleaving) r.stale_byte_idx r.bits_past_byte
          0 st
    ok (record r { stale_byte_idx = stale; bits_past_byte = past }, st')
