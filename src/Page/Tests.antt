-- ===== src/Page/Tests.antt =====
-- A batch of five symbols through the table of the test in pco/src/ans/mod.rs.
use pcodec.Common.{
  ℕ, ◌+◌, ◌-◌, ◌*◌, ◌/◌, ◌≤◌, ◌≡◌, refl, arith, List, [], ◌∷◌, ◌++◌, map, length, replicate, All,
  every_below→All, true, none,
}
use pcodec.Errors.{ok, ◌>>=◌}
use pcodec.Bits.{lowest_bits_fast, calc_max_u64s, calc_max_u64s_for_writing}
use pcodec.Latent.{latent_u16, bits}
use pcodec.Page.Offsets.{add_each, decompress_offsets}
use pcodec.Page.Decompress.{LatentPageDecompressor, decompress_batch_pre_delta}
use pcodec.Metadata.DeltaEncoding.{no_delta}
use pcodec.Page.Write.{write_short_uints}
use pcodec.Page.Filled.{bits_of, lowers_of}
use pcodec.Page.BatchTrip.{decompress_batch_pre_delta-write}
use pcodec.Page.Compress.{write_offsets}
use pcodec.Page.OffsetTrip.{decompress_offsets-write_offsets}
use pcodec.Bytes.{value}
use pcodec.BitReader.{BitReader, bit_idx}
use pcodec.Ans.Spec.{table_size}
use pcodec.Ans.Encoding.{Encoder, new_encoder, encode}
use pcodec.Ans.Decoding.{Node, Decoder, new_decoder}
use pcodec.Ans.NodeBits.{new_decoder_ok}
use pcodec.Ans.Sample.{small_spec, small_spec-IsValid}
use pcodec.Page.Symbols.{State, decompress_ans_symbols, decompress_full_ans_symbols}
use pcodec.Page.Reading.{
  seen, symbols_at, decompress_ans_symbols-eq-symbols_at, decompress_full_ans_symbols-eq,
}
use pcodec.Page.Table.{BinCompressionInfo, from_infos}
use pcodec.Page.Search.{binary_search}
use pcodec.Page.Searching.{count_le}
use pcodec.Common.{Rearranged-refl}
use pcodec.Page.Found.{IsSorted, lowers, binary_search-from_infos}
use pcodec.Page.Dissect.{AnsOut, encode_ans_in_reverse}
use pcodec.Page.Interleaved.{total, IsState, indices, filled, with_idxs, encode_all}
use pcodec.Page.Reverse.{written, encode_ans_in_reverse-eq-encode_all}
use pcodec.Page.AnsTrip.{encode_ans_in_reverse-ok, decompress_ans_symbols-encode_ans_in_reverse}

abbrev symbols : List ℕ
symbols = 2 ∷ 0 ∷ 1 ∷ 2 ∷ 1 ∷ []

abbrev encoder : Encoder
encoder = record {
  symbol_infos =
      record { renorm_bit_cutoff = 12; min_renorm_bits = 1; next_states = 8 ∷ 11 ∷ 14 ∷ [] }
      ∷ record { renorm_bit_cutoff = 12; min_renorm_bits = 1; next_states = 9 ∷ 12 ∷ 15 ∷ [] }
      ∷ record { renorm_bit_cutoff = 16; min_renorm_bits = 2; next_states = 10 ∷ 13 ∷ [] }
      ∷ [];
  size_log = 3;
}

made : new_encoder small_spec ≡ ok encoder
unfolding new_encoder pcodec.Slice.assign pcodec.Common.Pow.ilog2
made = refl

abbrev out0 : AnsOut
out0 = record {
  ans_vals = replicate 5 0;
  ans_bits = replicate 5 0;
  ans_final_states = 11 ∷ 13 ∷ 10 ∷ 15 ∷ [];
}

abbrev out : AnsOut
out = record {
  ans_vals = 3 ∷ 1 ∷ 0 ∷ 3 ∷ 1 ∷ [];
  ans_bits = 2 ∷ 2 ∷ 1 ∷ 2 ∷ 1 ∷ [];
  ans_final_states = 13 ∷ 8 ∷ 15 ∷ 13 ∷ [];
}

encodes : encode_ans_in_reverse encoder (symbols ++ (7 ∷ [])) out0 ≡ ok out
unfolding encode_ans_in_reverse pcodec.Slice.assign encode lowest_bits_fast
encodes = refl

-- The numbers stand behind three other bits.
abbrev reader : BitReader
reader = record {
  src = 61 ∷ 7 ∷ replicate 18 0;
  unpadded_bit_size = 160;
  stale_byte_idx = 0;
  bits_past_byte = 3;
}

abbrev state : State
state = record {
  offset_bits_csum_scratch = replicate 5 0;
  offset_bits_scratch = replicate 5 0;
  lowers_scratch = replicate 5 0;
  ans_state_idxs = 0 ∷ 1 ∷ 0 ∷ 1 ∷ [];
  delta_state = [];
  delta_state_pos = 0;
}

abbrev small_nodes : List Node
small_nodes =
    record { symbol = 0; next_state_idx_base = 0; offset_bits = 3; bits_to_read = 1 }
    ∷ record { symbol = 1; next_state_idx_base = 0; offset_bits = 4; bits_to_read = 1 }
    ∷ []

in_table : All (IsState (table_size small_spec)) out0.ans_final_states
unfolding table_size
in_table = (omega arith, (omega arith, (omega arith, (omega arith, tt))))

decompress_ans_symbols-eq-symbols_at_example :
    (decompress_ans_symbols small_nodes (10 ∷ 20 ∷ []) reader 5 state >>= seen)
    ≡ symbols_at small_nodes (10 ∷ 20 ∷ []) (value reader.src) 0 5 (bit_idx reader) 0 state
decompress_ans_symbols-eq-symbols_at_example =
    decompress_ans_symbols-eq-symbols_at small_nodes (10 ∷ 20 ∷ []) reader 5 state
      (omega arith, (omega arith, tt)) (every_below→All 256 reader.src refl) (omega arith)

abbrev long_reader : BitReader
long_reader = record reader { src = replicate 500 165 }

abbrev full_state : State
full_state = record state {
  offset_bits_csum_scratch = replicate 256 0;
  offset_bits_scratch = replicate 256 0;
  lowers_scratch = replicate 256 0;
}

decompress_full_ans_symbols-eq_example :
    (decompress_full_ans_symbols small_nodes (10 ∷ 20 ∷ []) long_reader full_state >>= seen)
    ≡ (decompress_ans_symbols small_nodes (10 ∷ 20 ∷ []) long_reader 256 full_state >>= seen)
decompress_full_ans_symbols-eq_example =
    decompress_full_ans_symbols-eq small_nodes (10 ∷ 20 ∷ []) long_reader full_state
      (omega arith, (omega arith, tt)) (every_below→All 256 long_reader.src refl) (omega arith)

encode_ans_in_reverse-eq-encode_all_example :
    encode_ans_in_reverse encoder (symbols ++ (7 ∷ [])) out0
    ≡ (encode_all encoder 0 symbols out0.ans_final_states >>= λ r. ok (written [] [] r))
encode_ans_in_reverse-eq-encode_all_example =
    encode_ans_in_reverse-eq-encode_all encoder symbols (7 ∷ []) out0 refl refl

encode_ans_in_reverse-ok_example :
    (out' : AnsOut) × (encode_ans_in_reverse encoder (symbols ++ (7 ∷ [])) out0 ≡ ok out')
    × (length out'.ans_final_states ≡ 4)
    × All (IsState (table_size small_spec)) out'.ans_final_states
    × (total out'.ans_bits ≤ 14 * length symbols)
encode_ans_in_reverse-ok_example =
    encode_ans_in_reverse-ok small_spec encoder symbols (7 ∷ []) out0 small_spec-IsValid made
      (every_below→All 3 symbols refl) refl in_table refl refl

decoder : (decoder : Decoder) × (new_decoder small_spec (5 ∷ 0 ∷ 9 ∷ []) ≡ ok decoder)
decoder = new_decoder_ok small_spec small_spec-IsValid (5 ∷ 0 ∷ 9 ∷ [])

decompress_ans_symbols-encode_ans_in_reverse_example :
    (decompress_ans_symbols decoder.0.nodes
        (10 ∷ 20 ∷ 30 ∷ [])
        reader
        5
        (with_idxs state (indices (table_size small_spec) out.ans_final_states))
      >>= seen)
    ≡ ok (
      bit_idx reader + total out.ans_bits,
      with_idxs
          (filled (10 ∷ 20 ∷ 30 ∷ []) (5 ∷ 0 ∷ 9 ∷ []) 0 0 symbols state)
          (indices (table_size small_spec) out0.ans_final_states),
    )
decompress_ans_symbols-encode_ans_in_reverse_example =
    decompress_ans_symbols-encode_ans_in_reverse small_spec encoder decoder.0 (5 ∷ 0 ∷ 9 ∷ [])
      (10 ∷ 20 ∷ 30 ∷ []) symbols (7 ∷ []) out0 out reader state small_spec-IsValid made decoder.1
      refl (every_below→All 3 symbols refl) refl in_table refl refl encodes
      (every_below→All 256 reader.src refl) (omega arith) refl
      (record { csums = omega arith; bits = omega arith; lowers = omega arith })

-- Three bins, whose table is searched for four latents.
abbrev infos : List BinCompressionInfo
infos =
    record { weight = 2; lower = 10; upper = 19; offset_bits = 4; symbol = 0 }
    ∷ record { weight = 1; lower = 20; upper = 20; offset_bits = 0; symbol = 1 }
    ∷ record { weight = 1; lower = 300; upper = 555; offset_bits = 8; symbol = 2 }
    ∷ []

abbrev latents : List ℕ
latents = 20 ∷ 10 ∷ 555 ∷ 19 ∷ []

ascending : IsSorted infos infos
ascending =
    (Rearranged-refl infos, ((omega arith, (omega arith, tt)), ((omega arith, tt), (tt, tt))))

binary_search-from_infos_example :
    binary_search (from_infos 16 (λ xs. xs) infos) latents
    ≡ ok (
        map (λ l. count_le l (lowers (from_infos 16 (λ xs. xs) infos)) - 1) latents
        ++ replicate (256 - length latents) 0)
binary_search-from_infos_example =
    binary_search-from_infos 16 (λ xs. xs) infos latents ascending ascending (omega arith)
      (omega arith, (omega arith, (omega arith, tt))) (every_below→All 65536 latents refl)
      (omega arith)

-- Two offsets behind three other bits.
abbrev offset_state : State
offset_state = record state {
  offset_bits_csum_scratch = 0 ∷ 4 ∷ 0 ∷ [];
  offset_bits_scratch = 4 ∷ 6 ∷ 0 ∷ [];
}

decompress_offsets-write_offsets_example :
    (stale' : ℕ) × (past' : ℕ) × (out' : List ℕ) × (r' : BitReader) × (write_offsets
        (calc_max_u64s_for_writing 6)
        (9 ∷ 33 ∷ [])
        (4 ∷ 6 ∷ [])
        0
        3
        (5 ∷ replicate 18 0)
      ≡ ok (stale', past', out'))
    × (decompress_offsets
          (bits latent_u16)
          (calc_max_u64s 6)
          offset_state
          (record reader { src = out' })
          (0 ∷ 0 ∷ [])
        ≡ ok (r', 9 ∷ 33 ∷ []))
    × (bit_idx r' ≡ 8 * stale' + past')
unfolding bits
decompress_offsets-write_offsets_example =
    decompress_offsets-write_offsets latent_u16 6 0 3 (9 ∷ 33 ∷ []) (4 ∷ 6 ∷ [])
      (5 ∷ replicate 18 0) (0 ∷ 0 ∷ []) reader offset_state (omega arith) (omega arith)
      (omega arith, omega arith, (omega arith, omega arith, tt)) (omega arith) (omega arith)
      (every_below→All 256 (5 ∷ replicate 18 0) refl) (omega arith) (omega arith) refl refl
      (record { bits_behind = 0 ∷ []; csums_behind = 0 ∷ []; is_bits = refl; is_csums = refl })

-- The offsets of the five symbols are written behind their numbers.
abbrev lpd : LatentPageDecompressor
lpd = record {
  u64s_per_offset = calc_max_u64s 9;
  bin_lowers = 10 ∷ 20 ∷ 30 ∷ [];
  needs_ans = true;
  decoder = decoder.0;
  delta_encoding = no_delta;
  maybe_constant_value = none;
  state = with_idxs state (indices (table_size small_spec) out.ans_final_states);
}

abbrev obits : List ℕ
obits = bits_of (10 ∷ 20 ∷ 30 ∷ []) (5 ∷ 0 ∷ 9 ∷ []) symbols

abbrev dst : List ℕ
dst = 5 ∷ replicate 30 0

decompress_batch_pre_delta-write_example :
    (s1 : ℕ) × (p1 : ℕ) × (d1 : List ℕ) × (s2 : ℕ) × (p2 : ℕ) × (d2 : List ℕ)
    × (lpd' : LatentPageDecompressor) × (r' : BitReader) × (write_short_uints out.ans_vals
          out.ans_bits 0 3 dst
        ≡ ok (s1, p1, d1))
    × (write_offsets (calc_max_u64s_for_writing 9) (300 ∷ 17 ∷ 0 ∷ 2 ∷ 0 ∷ []) obits s1 p1 d1
        ≡ ok (s2, p2, d2))
    × (decompress_batch_pre_delta (bits latent_u16) lpd (record reader { src = d2 }) (replicate 5 0)
        ≡ ok (
          lpd',
          r',
          add_each
              (bits latent_u16)
              (lowers_of (10 ∷ 20 ∷ 30 ∷ []) (5 ∷ 0 ∷ 9 ∷ []) symbols)
              (300 ∷ 17 ∷ 0 ∷ 2 ∷ 0 ∷ []),
        ))
    × (bit_idx r' ≡ 8 * s2 + p2)
    × (lpd'.state.ans_state_idxs ≡ indices (table_size small_spec) out0.ans_final_states)
unfolding bits
decompress_batch_pre_delta-write_example =
    decompress_batch_pre_delta-write latent_u16 9 0 3 small_spec encoder (5 ∷ 0 ∷ 9 ∷ []) symbols
      (7 ∷ []) (300 ∷ 17 ∷ 0 ∷ 2 ∷ 0 ∷ []) dst (replicate 5 0) out0 out lpd state reader
      small_spec-IsValid made decoder.1 refl (every_below→All 3 symbols refl) refl in_table refl
      refl encodes (omega arith) (omega arith) (omega arith) (omega arith)
      (
        omega arith,
        omega arith,
        (
          omega arith,
          omega arith,
          (omega arith, omega arith, (omega arith, omega arith, (omega arith, omega arith, tt))),
        ),
      )
      (every_below→All 256 dst refl) (omega arith) (omega arith) refl refl refl refl
      (record { csums = omega arith; bits = omega arith; lowers = omega arith }) refl
