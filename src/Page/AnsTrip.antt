-- ===== src/Page/AnsTrip.antt =====
-- The ANS part of a batch in pco/src, from the symbols to the bits of the page and back.
use pcodec.Common.{
  subst, ℕ, ◌+◌, ◌*◌, ◌/◌, ◌≤◌, ◌<◌, ◌≡◌, sym, ap, ◌∙◌, arith, List, [], ◌++◌, length, replicate,
  length-replicate, All,
}
use pcodec.Errors.{ok, ok-injective, ◌>>=◌}
use pcodec.Bytes.{value, IsBytes}
use pcodec.BitReader.{BitReader, bit_idx}
use pcodec.BitReader.Reading.{bits_at}
use pcodec.Ans.Spec.{Spec, table_size}
use pcodec.Ans.Encoding.{Encoder, new_encoder}
use pcodec.Ans.Decoding.{Decoder, new_decoder}
use pcodec.Ans.RoundTrip.{IsValid}
use pcodec.Ans.NodeBits.{new_decoder_ok, new_decoder-few}
use pcodec.Page.Symbols.{State, decompress_ans_symbols}
use pcodec.Page.Reading.{seen, decompress_ans_symbols-eq-symbols_at}
use pcodec.Page.Dissect.{AnsOut, encode_ans_in_reverse}
use pcodec.Page.Interleaved.{
  AreNumbers, total, joined, IsState, indices, filled, with_idxs, HasRoom, Encoded,
  encode_all-Encoded,
}
use pcodec.Page.Reverse.{written, encode_ans_in_reverse-eq-encode_all}

module _ (spec : Spec) (valid : IsValid spec) (encoder : Encoder) (decoder : Decoder)
    (offs bin_lowers symbols junk : List ℕ) (out0 : AnsOut) (made : new_encoder spec ≡ ok encoder)
    (dec_made : new_decoder spec offs ≡ ok decoder)
    (n_lowers : length bin_lowers ≡ length spec.symbol_weights)
    (known : All (λ s. s < length spec.symbol_weights) symbols)
    (four : length out0.ans_final_states ≡ 4)
    (in_table : All (IsState (table_size spec)) out0.ans_final_states)
    (n_vals : length out0.ans_vals ≡ length symbols)
    (n_bits : length out0.ans_bits ≡ length symbols) where
  abbrev enc :
      Encoded spec valid encoder decoder offs bin_lowers made dec_made n_lowers 0 symbols
        out0.ans_final_states
  enc =
      encode_all-Encoded spec valid encoder decoder offs bin_lowers made dec_made n_lowers 0 symbols
        out0.ans_final_states four in_table known

  ends :
      encode_ans_in_reverse encoder (symbols ++ junk) out0
      ≡ ok (written [] [] (enc.states, enc.vals, enc.bits))
  ends =
      encode_ans_in_reverse-eq-encode_all encoder symbols junk out0 n_vals n_bits
      ∙ ap (λ t. t >>= λ r. ok (written [] [] r)) enc.runs

  pub out-AreNumbers :
      (out : AnsOut)
      → encode_ans_in_reverse encoder (symbols ++ junk) out0 ≡ ok out
      → AreNumbers 14 out.ans_vals out.ans_bits
        × (length out.ans_vals ≡ length symbols)
        × (total out.ans_bits ≤ 14 * length symbols)
  out-AreNumbers out runs =
      let same : written [] [] (enc.states, enc.vals, enc.bits) ≡ out =
        ok-injective _ out (sym ends ∙ runs) in
      subst
        (λ (o : AnsOut).
          AreNumbers 14 o.ans_vals o.ans_bits
          × (length o.ans_vals ≡ length symbols)
          × (total o.ans_bits ≤ 14 * length symbols))
        same (enc.numbers, enc.n_vals, enc.few)

-- The table is valid, and the encoder is made from it; the symbols are known, the four states are of
-- the table, and the arrays that are written to are as long as the batch. Then encoding the batch
-- succeeds, with four states of the table at the end and at most 14 bits for each symbol.
pub encode_ans_in_reverse-ok :
    (spec : Spec) (encoder : Encoder) (symbols junk : List ℕ) (out0 : AnsOut)
    → IsValid spec
    → new_encoder spec ≡ ok encoder
    → All (λ s. s < length spec.symbol_weights) symbols
    → length out0.ans_final_states ≡ 4
    → All (IsState (table_size spec)) out0.ans_final_states
    → length out0.ans_vals ≡ length symbols
    → length out0.ans_bits ≡ length symbols
    → (out : AnsOut) × (encode_ans_in_reverse encoder (symbols ++ junk) out0 ≡ ok out)
      × (length out.ans_final_states ≡ 4)
      × All (IsState (table_size spec)) out.ans_final_states
      × (total out.ans_bits ≤ 14 * length symbols)
encode_ans_in_reverse-ok spec encoder symbols junk out0 valid made known four in_table n_vals
      n_bits =
    let (decoder, dec_made) = new_decoder_ok spec valid [] in
    let n : ℕ = length spec.symbol_weights in
    let e =
      enc spec valid encoder decoder [] (replicate n 0) symbols junk out0 made dec_made
        (length-replicate n 0) known four in_table n_vals n_bits in
    (
      _,
      ends spec valid encoder decoder [] (replicate n 0) symbols junk out0 made dec_made
          (length-replicate n 0) known four in_table n_vals n_bits,
      e.four,
      e.in_table,
      e.few,
    )

-- The table is valid, the encoder and the decoder are made from it, and each symbol has a lower
-- bound; the symbols of the batch are known, the four states are of the table, and the arrays that
-- are written to are as long as the batch. The numbers that encoding the batch gives stand in the
-- bytes of a page at the reader's position, one behind the other, with 8 bytes behind the byte where
-- they can end at the latest. Then decoding as many symbols, from the states that encoding ended in,
-- fills the scratch arrays, in which there is room, with the lower bounds of the symbols, their offset
-- bits and the sums of the offset bits before each; it ends in the states that encoding began with,
-- and at the bit where the numbers end.
pub decompress_ans_symbols-encode_ans_in_reverse :
    (spec : Spec) (encoder : Encoder) (decoder : Decoder) (offs bin_lowers symbols junk : List ℕ)
    (out0 out : AnsOut) (r : BitReader) (st : State)
    → IsValid spec
    → new_encoder spec ≡ ok encoder
    → new_decoder spec offs ≡ ok decoder
    → length bin_lowers ≡ length spec.symbol_weights
    → All (λ s. s < length spec.symbol_weights) symbols
    → length out0.ans_final_states ≡ 4
    → All (IsState (table_size spec)) out0.ans_final_states
    → length out0.ans_vals ≡ length symbols
    → length out0.ans_bits ≡ length symbols
    → encode_ans_in_reverse encoder (symbols ++ junk) out0 ≡ ok out
    → IsBytes r.src
    → (bit_idx r + 14 * length symbols) / 8 + 8 ≤ length r.src
    → bits_at (value r.src) (bit_idx r) (total out.ans_bits) ≡ joined out.ans_vals out.ans_bits
    → HasRoom (length symbols) st
    → (decompress_ans_symbols decoder.nodes bin_lowers r
          (length symbols)
          (with_idxs st (indices (table_size spec) out.ans_final_states))
        >>= seen)
      ≡ ok (
        bit_idx r + total out.ans_bits,
        with_idxs
            (filled bin_lowers offs 0 0 symbols st)
            (indices (table_size spec) out0.ans_final_states),
      )
decompress_ans_symbols-encode_ans_in_reverse spec encoder decoder offs bin_lowers symbols junk out0
      out r st valid made dec_made n_lowers known four in_table n_vals n_bits runs bytes room here
      has_room =
    let e =
      enc spec valid encoder decoder offs bin_lowers symbols junk out0 made dec_made n_lowers known
        four in_table n_vals n_bits in
    let same : written [] [] (e.states, e.vals, e.bits) ≡ out = ok-injective _ out (
      sym (
        ends spec valid encoder decoder offs bin_lowers symbols junk out0 made dec_made n_lowers
          known four in_table n_vals n_bits)
      ∙ runs) in
    let vals : e.vals ≡ out.ans_vals = ap AnsOut.ans_vals same in
    let bits : e.bits ≡ out.ans_bits = ap AnsOut.ans_bits same in
    let states : e.states ≡ out.ans_final_states = ap AnsOut.ans_final_states same in
    decompress_ans_symbols-eq-symbols_at decoder.nodes bin_lowers r (length symbols) _
      (new_decoder-few spec valid offs decoder dec_made) bytes room
    ∙ rw (vals, bits, states) at e.back (value r.src) (bit_idx r) 0 st here
        (record {
          csums = omega (arith, has_room.csums);
          bits = omega (arith, has_room.bits);
          lowers = omega (arith, has_room.lowers);
        })
