-- ===== src/Page/BatchTrip.antt =====
-- A batch of one latent variable, from its symbols and offsets to the bytes of the page, by
-- pco/src/latent_chunk_compressor.rs, and back to its latents, by pco/src/latent_page_decompressor.rs.
use pcodec.Common.{
  ℕ, ◌+◌, ◌*◌, ◌/◌, ◌%◌, ◌^◌, ◌≤◌, ◌<◌, ◌≡◌, refl, sym, ap, ap₂, subst, ◌∙◌, arith, ◌==◌, le→ltb,
  ne→==, ==→eq, Bool-cases, inl, inr, true, List, [], ◌∷◌, ◌++◌, length, length-map, All,
  length-append, take-length_append,
}
use pcodec.Common.Pow.{pow-add, div_of_eq, mod_of_eq}
use pcodec.Errors.{Result, ok, ok-injective, ◌>>=◌, >>=-eq-ok}
use pcodec.Bytes.{value, IsBytes}
use pcodec.Bits.{calc_max_u64s, calc_max_u64s_for_writing}
use pcodec.Latent.{LatentType, bits}
use pcodec.BitReader.{BitReader, bit_idx}
use pcodec.BitReader.Reading.{bits_at}
use pcodec.Ans.Spec.{Spec, table_size}
use pcodec.Ans.Encoding.{Encoder, new_encoder}
use pcodec.Ans.Decoding.{Node, new_decoder}
use pcodec.Ans.RoundTrip.{IsValid}
use pcodec.Ans.NodeBits.{new_decoder-few}
use pcodec.Page.Symbols.{
  State, decompress_ans_symbols, decompress_full_ans_symbols, ans_symbols, full_ans_symbols,
}
use pcodec.Page.Reading.{seen, decompress_full_ans_symbols-eq}
use pcodec.Page.Offsets.{add_each, add_lowers, decompress_offsets}
use pcodec.Page.Decompress.{LatentPageDecompressor, decompress_symbols, decompress_batch_pre_delta}
use pcodec.Page.Write.{write_short_uints}
use pcodec.Page.Compress.{write_offsets}
use pcodec.Page.Dissect.{AnsOut, encode_ans_in_reverse}
use pcodec.Page.Interleaved.{
  AreNumbers, total, joined, IsState, indices, filled, with_idxs, HasRoom,
}
use pcodec.Page.AnsTrip.{out-AreNumbers, decompress_ans_symbols-encode_ans_in_reverse}
use pcodec.Page.Writing.{AreNumbers-mono, AreNumbers-length, write_short_uints_lem}
use pcodec.Page.OffsetTrip.{
  IsScratch, bits-le, write_offsets_lem, read_offset, decompress_offsets_lem, joined-lt,
  bits_at-written,
}
use pcodec.Page.Filled.{bits_of, lowers_of, filled-IsScratch, filled-lowers}

calc_mono : (m w : ℕ) → m ≤ w → calc_max_u64s m ≤ calc_max_u64s w
unfolding calc_max_u64s
calc_mono m w h = ground arith

calc-pos : (m : ℕ) → 1 ≤ m → 0 < calc_max_u64s m
unfolding calc_max_u64s
calc-pos m h = ground arith

-- The reader that a loop over symbols leaves behind.
abbrev left_at : BitReader → ℕ × ℕ × State → Result (BitReader × State)
left_at r (stale, past, st) = ok (record r { stale_byte_idx = stale; bits_past_byte = past }, st)

place_lem :
    (r : BitReader) (run : Result (ℕ × ℕ × State)) (pos : ℕ) (end : State)
    → ((run >>= left_at r) >>= seen) ≡ ok (pos, end)
    → (r1 : BitReader) × ((run >>= left_at r) ≡ ok (r1, end))
      × (bit_idx r1 ≡ pos)
      × (r1.src ≡ r.src)
place_lem r run pos end h =
    let (a, e, h1) = >>=-eq-ok (run >>= left_at r) seen h in
    let (b, e', h2) = >>=-eq-ok run (left_at r) e in
    let r1 : BitReader = record r { stale_byte_idx = b.0; bits_past_byte = b.1 } in
    let ended : (r1, b.2) ≡ a = ok-injective (r1, b.2) a h2 in
    let same : (bit_idx a.0, a.1) ≡ (pos, end) = ok-injective (bit_idx a.0, a.1) (pos, end) h1 in
    let state : b.2 ≡ end = ap (λ t. t.1) ended ∙ ap (λ t. t.1) same in
    (
      r1,
      e ∙ ap ok (sym ended) ∙ ap (λ st. ok (r1, st)) state,
      ap (λ t. bit_idx t.0) ended ∙ ap (λ t. t.0) same,
      refl,
    )

general_place :
    (nodes : List Node) (bin_lowers : List ℕ) (r : BitReader) (n pos : ℕ) (st end : State)
    → (decompress_ans_symbols nodes bin_lowers r n st >>= seen) ≡ ok (pos, end)
    → (r1 : BitReader) × (decompress_ans_symbols nodes bin_lowers r n st ≡ ok (r1, end))
      × (bit_idx r1 ≡ pos)
      × (r1.src ≡ r.src)
unfolding decompress_ans_symbols
general_place nodes bin_lowers r n pos st end h =
    place_lem r (ans_symbols nodes bin_lowers r.src 0 n r.stale_byte_idx r.bits_past_byte 0 st) pos
      end h

full_place :
    (nodes : List Node) (bin_lowers : List ℕ) (r : BitReader) (pos : ℕ) (st end : State)
    → (decompress_full_ans_symbols nodes bin_lowers r st >>= seen) ≡ ok (pos, end)
    → (r1 : BitReader) × (decompress_full_ans_symbols nodes bin_lowers r st ≡ ok (r1, end))
      × (bit_idx r1 ≡ pos)
      × (r1.src ≡ r.src)
unfolding decompress_full_ans_symbols
full_place nodes bin_lowers r pos st end h =
    place_lem r
      (full_ans_symbols nodes bin_lowers r.src 0 64 r.stale_byte_idx r.bits_past_byte 0 st) pos end
      h

-- The symbols of a batch of either kind, from what the general loop gives.
symbols_read :
    (lpd : LatentPageDecompressor) (r : BitReader) (n pos : ℕ) (end : State)
    → lpd.needs_ans ≡ true
    → n ≤ 256
    → All (λ node. node.bits_to_read ≤ 14) lpd.decoder.nodes
    → IsBytes r.src
    → (bit_idx r + 14 * n) / 8 + 8 ≤ length r.src
    → (decompress_ans_symbols lpd.decoder.nodes lpd.bin_lowers r n lpd.state >>= seen)
      ≡ ok (pos, end)
    → (r1 : BitReader) × (decompress_symbols lpd r n ≡ ok (r1, end))
      × (bit_idx r1 ≡ pos)
      × (r1.src ≡ r.src)
unfolding decompress_symbols
symbols_read lpd r n pos end needs batch few bytes room runs = elim (Bool-cases (n == 256)) [
  | inl full ↦
      let e : n ≡ 256 = ==→eq n 256 full in
      let (r1, all, at, src) = full_place lpd.decoder.nodes lpd.bin_lowers r pos lpd.state end (
        decompress_full_ans_symbols-eq lpd.decoder.nodes lpd.bin_lowers r lpd.state few bytes
          (rw e at room)
        ∙ rw e at runs) in
      (r1, rw (needs, le→ltb 256 n batch, full) all, at, src)
  | inr part ↦
      let (r1, all, at, src) =
        general_place lpd.decoder.nodes lpd.bin_lowers r n pos lpd.state end runs in
      (r1, rw (needs, le→ltb 256 n batch, part) all, at, src)
]

-- The lower bounds are added to the offsets.
add_lowers_lem :
    (w : ℕ) (lowers behind vals : List ℕ) (st : State)
    → st.lowers_scratch ≡ lowers ++ behind
    → length vals ≡ length lowers
    → add_lowers w st vals ≡ ok (add_each w lowers vals)
unfolding add_lowers
add_lowers_lem w lowers behind vals st e len =
    rw
      (
        e,
        len,
        le→ltb (length (lowers ++ behind)) (length lowers) (rw length-append (omega arith)),
        take-length_append lowers behind,
      )
      refl

pre_delta_lem :
    (w : ℕ) (lpd : LatentPageDecompressor) (r r1 r2 : BitReader) (st1 : State)
    (latents offsets out : List ℕ)
    → 0 < length latents
    → lpd.u64s_per_offset ≤ calc_max_u64s w
    → 0 < lpd.u64s_per_offset
    → decompress_symbols lpd r (length latents) ≡ ok (r1, st1)
    → decompress_offsets w lpd.u64s_per_offset st1 r1 latents ≡ ok (r2, offsets)
    → add_lowers w st1 offsets ≡ ok out
    → decompress_batch_pre_delta w lpd r latents ≡ ok (record lpd { state = st1 }, r2, out)
unfolding decompress_batch_pre_delta
pre_delta_lem w lpd r r1 r2 st1 [] offsets out one le pos sy of_ad ad = absurd (omega arith)
pre_delta_lem w lpd r r1 r2 st1 (d ∷ ds) offsets out one le pos symbols_ok offsets_ok lowers_ok =
    rw
      (
        symbols_ok,
        le→ltb (calc_max_u64s w) lpd.u64s_per_offset le,
        ne→== lpd.u64s_per_offset 0 (λ e. omega (arith, e, pos)),
        offsets_ok,
        lowers_ok,
      )
      refl

-- Two lists of numbers that are written one after the other.
both_written :
    (k m pos : ℕ) (xs xbits ys ybits dst d1 d2 : List ℕ)
    → AreNumbers k xs xbits
    → AreNumbers m ys ybits
    → value dst < 2 ^ pos
    → value d1 ≡ value dst + 2 ^ pos * joined xs xbits
    → value d2 ≡ value d1 + 2 ^ (pos + total xbits) * joined ys ybits
    → value d1 < 2 ^ (pos + total xbits)
    → (bits_at (value d2) pos (total xbits) ≡ joined xs xbits)
      × (bits_at (value d2) (pos + total xbits) (total ybits) ≡ joined ys ybits)
both_written k m pos xs xbits ys ybits dst d1 d2 hx hy clear e1 e2 clear1 =
    let x : ℕ = joined xs xbits in
    let y : ℕ = joined ys ybits in
    let shape : value d2 ≡ value dst + 2 ^ pos * (x + 2 ^ total xbits * y) =
      omega (arith, e1, e2, ap (λ (q : ℕ). q * y) (pow-add pos (total xbits))) in
    let x-lt : x < 2 ^ total xbits = joined-lt k xs xbits hx in
    (
      ap (λ v. v % 2 ^ total xbits)
            (ap (λ v. v / 2 ^ pos) shape
              ∙ div_of_eq (value dst + 2 ^ pos * (x + 2 ^ total xbits * y))
                  (x + 2 ^ total xbits * y) (2 ^ pos) (value dst) (omega arith) clear)
          ∙ mod_of_eq (x + 2 ^ total xbits * y) y (2 ^ total xbits) x (omega arith) x-lt,
      bits_at-written m (pos + total xbits) ys ybits d1 d2 hy clear1 e2,
    )

-- The numbers of the symbols and then the offsets, as they stand in the buffer at the end.
record WroteBoth (m stale past : ℕ) (xs xbits vals obits dst : List ℕ) : Type 0 where
  s1 : ℕ
  p1 : ℕ
  d1 : List ℕ
  s2 : ℕ
  p2 : ℕ
  d2 : List ℕ
  first : write_short_uints xs xbits stale past dst ≡ ok (s1, p1, d1)
  second : write_offsets (calc_max_u64s_for_writing m) vals obits s1 p1 d1 ≡ ok (s2, p2, d2)
  bytes : IsBytes d2
  size : length d2 ≡ length dst
  ends : 8 * s2 + p2 ≡ 8 * stale + past + total xbits + total obits
  symbols_here : bits_at (value d2) (8 * stale + past) (total xbits) ≡ joined xs xbits
  offsets_here :
      bits_at (value d2) (8 * stale + past + total xbits) (total obits) ≡ joined vals obits

write_both :
    (m stale past : ℕ) (xs xbits vals obits dst : List ℕ)
    → 1 ≤ m
    → m ≤ 64
    → AreNumbers 14 xs xbits
    → AreNumbers m vals obits
    → length xs ≤ 256
    → length vals ≤ 256
    → IsBytes dst
    → value dst < 2 ^ (8 * stale + past)
    → (8 * stale + past + total xbits + total obits) / 8 + 15 ≤ length dst
    → WroteBoth m stale past xs xbits vals obits dst
write_both m stale past xs xbits vals obits dst some wide hx hv nx nv bytes clear room =
    let first =
      write_short_uints_lem xs xbits stale past dst bytes clear nx (omega (arith, room))
        (AreNumbers-mono 14 56 xs xbits (omega arith) hx) in
    let clear1 : value first.out < 2 ^ (8 * first.stale + first.past) =
      rw first.moved first.clear in
    let second =
      write_offsets_lem m first.stale first.past vals obits first.out some wide hv nv first.bytes
        clear1 (omega (arith, room, first.moved, first.same_length)) in
    let added2 : value second.out
        ≡ value first.out + 2 ^ (8 * stale + past + total xbits) * joined vals obits =
      second.added ∙ ap (λ q. value first.out + 2 ^ q * joined vals obits) first.moved in
    let (symbols_here, offsets_here) =
      both_written 14 m (8 * stale + past) xs xbits vals obits dst first.out second.out hx hv clear
        first.added added2 first.clear in
    record {
      s1 = first.stale;
      p1 = first.past;
      d1 = first.out;
      s2 = second.stale;
      p2 = second.past;
      d2 = second.out;
      first = first.returns;
      second = second.returns;
      bytes = second.bytes;
      size = second.same_length ∙ first.same_length;
      ends = omega (arith, second.moved, first.moved);
      symbols_here = symbols_here;
      offsets_here = offsets_here;
    }

-- A batch is read from a state that its symbols lead to.
read_batch :
    (t : LatentType) (m n a : ℕ) (vals obits lowers behind latents : List ℕ)
    (lpd : LatentPageDecompressor) (r : BitReader) (end : State)
    → 0 < n
    → n ≤ 256
    → 1 ≤ m
    → m ≤ bits t
    → AreNumbers m vals obits
    → length vals ≡ n
    → length lowers ≡ n
    → length latents ≡ n
    → lpd.needs_ans ≡ true
    → lpd.u64s_per_offset ≡ calc_max_u64s m
    → All (λ node. node.bits_to_read ≤ 14) lpd.decoder.nodes
    → IsBytes r.src
    → (bit_idx r + 14 * n + total obits) / 8 + 15 ≤ length r.src
    → a ≤ 14 * n
    → (decompress_ans_symbols lpd.decoder.nodes lpd.bin_lowers r n lpd.state >>= seen)
      ≡ ok (bit_idx r + a, end)
    → bits_at (value r.src) (bit_idx r + a) (total obits) ≡ joined vals obits
    → IsScratch obits end
    → end.lowers_scratch ≡ lowers ++ behind
    → (r' : BitReader) × (decompress_batch_pre_delta (bits t) lpd r latents
        ≡ ok (record lpd { state = end }, r', add_each (bits t) lowers vals))
      × (bit_idx r' ≡ bit_idx r + a + total obits)
read_batch t m n a vals obits lowers behind latents lpd r end one batch some fits numbers n_offsets
      n_low n_latents needs u64s few bytes room small decoded here scratch low =
    let (r1, symbols_ok, at1, src1) =
      symbols_read lpd r n (bit_idx r + a) end needs batch few bytes (omega (arith, room))
        decoded in
    let (r2, offsets_ok, ends, _) =
      decompress_offsets_lem (bits t) (calc_max_u64s m) m r1
        (λ i b k aligned le inside.
          read_offset m r1.src (subst IsBytes (sym src1) bytes) t i b k some fits aligned le inside)
        vals obits latents end numbers (subst (λ k. 0 < k) (sym n_offsets) one)
        (n_latents ∙ sym n_offsets) scratch
        (ap₂ (λ xs q. bits_at (value xs) q (total obits)) src1 at1 ∙ here)
        (room_lem (bit_idx r1) (bit_idx r) a n (total obits) (length r1.src) (length r.src) at1
          (ap length src1) small room) in
    (
      r2,
      pre_delta_lem (bits t) lpd r r1 r2 end latents vals (add_each (bits t) lowers vals)
          (subst (λ k. 0 < k) (sym n_latents) one) (rw u64s (calc_mono m (bits t) fits))
          (rw u64s (calc-pos m some)) (ap (λ k. decompress_symbols lpd r k) n_latents ∙ symbols_ok)
          (ap (λ u. decompress_offsets (bits t) u end r1 latents) u64s ∙ offsets_ok)
          (add_lowers_lem (bits t) lowers behind vals end low (n_offsets ∙ sym n_low)),
      ends ∙ ap (λ q. q + total obits) at1,
    )
  where
    room_lem :
        (r1 r0 a n o l1 l0 : ℕ)
        → r1 ≡ r0 + a
        → l1 ≡ l0
        → a ≤ 14 * n
        → (r0 + 14 * n + o) / 8 + 15 ≤ l0
        → (r1 + o) / 8 + 15 ≤ l1
    room_lem r1 r0 a n o l1 l0 h1 h2 h3 h4 = omega arith

-- What was written is read.
read_written :
    (t : LatentType) (m pos : ℕ) (spec : Spec) (encoder : Encoder)
    (offs symbols junk vals latents d2 : List ℕ) (out0 out : AnsOut) (lpd : LatentPageDecompressor)
    (st : State) (r : BitReader)
    → IsValid spec
    → new_encoder spec ≡ ok encoder
    → new_decoder spec offs ≡ ok lpd.decoder
    → length lpd.bin_lowers ≡ length spec.symbol_weights
    → All (λ s. s < length spec.symbol_weights) symbols
    → length out0.ans_final_states ≡ 4
    → All (IsState (table_size spec)) out0.ans_final_states
    → length out0.ans_vals ≡ length symbols
    → length out0.ans_bits ≡ length symbols
    → encode_ans_in_reverse encoder (symbols ++ junk) out0 ≡ ok out
    → 0 < length symbols
    → length symbols ≤ 256
    → 1 ≤ m
    → m ≤ bits t
    → AreNumbers m vals (bits_of lpd.bin_lowers offs symbols)
    → IsBytes d2
    → (pos + 14 * length symbols + total (bits_of lpd.bin_lowers offs symbols)) / 8 + 15 ≤ length d2
    → bit_idx r ≡ pos
    → lpd.needs_ans ≡ true
    → lpd.u64s_per_offset ≡ calc_max_u64s m
    → lpd.state ≡ with_idxs st (indices (table_size spec) out.ans_final_states)
    → HasRoom (length symbols) st
    → length latents ≡ length symbols
    → total out.ans_bits ≤ 14 * length symbols
    → length vals ≡ length symbols
    → bits_at (value d2) pos (total out.ans_bits) ≡ joined out.ans_vals out.ans_bits
    → bits_at (value d2) (pos + total out.ans_bits) (total (bits_of lpd.bin_lowers offs symbols))
      ≡ joined vals (bits_of lpd.bin_lowers offs symbols)
    → (r' : BitReader) × (decompress_batch_pre_delta (bits t) lpd (record r { src = d2 }) latents
        ≡ ok (
          record lpd {
            state =
                with_idxs
                  (filled lpd.bin_lowers offs 0 0 symbols st)
                  (indices (table_size spec) out0.ans_final_states);
          },
          r',
          add_each (bits t) (lowers_of lpd.bin_lowers offs symbols) vals,
        ))
      × (bit_idx r' ≡ pos + total out.ans_bits + total (bits_of lpd.bin_lowers offs symbols))
read_written t m pos spec encoder offs symbols junk vals latents d2 out0 out lpd st r valid made
      dec_made n_lowers known four in_table n_vals n_bits runs one batch some fits numbers bytes
      room same needs u64s starts has_room len few n_offsets symbols_here offsets_here =
    let obits : List ℕ = bits_of lpd.bin_lowers offs symbols in
    let reader : BitReader = record r { src = d2 } in
    let is_scratch = filled-IsScratch lpd.bin_lowers offs symbols st has_room in
    let (behind, low) = filled-lowers lpd.bin_lowers offs symbols st has_room in
    let room' : (bit_idx r + 14 * length symbols + total obits) / 8 + 15 ≤ length d2 =
      subst (λ q. (q + 14 * length symbols + total obits) / 8 + 15 ≤ length d2) (sym same) room in
    let decoded =
      decompress_ans_symbols-encode_ans_in_reverse spec encoder lpd.decoder offs lpd.bin_lowers
        symbols junk out0 out reader st valid made dec_made n_lowers known four in_table n_vals
        n_bits runs bytes (omega (arith, room'))
        (subst (λ q. bits_at (value d2) q (total out.ans_bits) ≡ joined out.ans_vals out.ans_bits)
          (sym same) symbols_here)
        has_room in
    let (r', reads, ends) =
      read_batch t m (length symbols) (total out.ans_bits) vals obits
        (lowers_of lpd.bin_lowers offs symbols) behind latents lpd reader
        (with_idxs (filled lpd.bin_lowers offs 0 0 symbols st)
          (indices (table_size spec) out0.ans_final_states))
        one batch some fits numbers n_offsets (length-map _ symbols) len needs u64s
        (new_decoder-few spec valid offs lpd.decoder dec_made) bytes room' few
        (ap
            (λ s.
              decompress_ans_symbols lpd.decoder.nodes lpd.bin_lowers reader (length symbols) s
              >>= seen)
            starts
          ∙ decoded)
        (subst (λ q. bits_at (value d2) (q + total out.ans_bits) (total obits) ≡ joined vals obits)
          (sym same) offsets_here)
        (record {
          bits_behind = is_scratch.bits_behind;
          csums_behind = is_scratch.csums_behind;
          is_bits = is_scratch.is_bits;
          is_csums = is_scratch.is_csums;
        })
        low in
    (r', reads, ends ∙ ap (λ q. q + total out.ans_bits + total obits) same)

-- A batch of 1 to 256 symbols of a valid table, whose encoder, decoder and lower bounds are given, is
-- encoded from four states of the table; each symbol has an offset on the symbol's offset bits, which are
-- at most `m`, where `m` is at least 1 and at most the bits of the latents' type. The buffer has bytes, is
-- clear from the position on, and has 15 bytes behind the byte where the batch can end at the
-- latest; a reader stands at the same position. The page's decompressor needs ANS, is set up for
-- `m`, and is in the states that encoding ended in, with room in its scratch arrays. Then writing the
-- numbers of the symbols and then the offsets succeeds, and decompressing as many latents from that
-- buffer succeeds and gives for each symbol its lower bound plus its offset; it ends in the states
-- that encoding began with, and at the position where writing ended.
pub decompress_batch_pre_delta-write :
    (t : LatentType) (m stale past : ℕ) (spec : Spec) (encoder : Encoder)
    (offs symbols junk vals dst latents : List ℕ) (out0 out : AnsOut) (lpd : LatentPageDecompressor)
    (st : State) (r : BitReader)
    → IsValid spec
    → new_encoder spec ≡ ok encoder
    → new_decoder spec offs ≡ ok lpd.decoder
    → length lpd.bin_lowers ≡ length spec.symbol_weights
    → All (λ s. s < length spec.symbol_weights) symbols
    → length out0.ans_final_states ≡ 4
    → All (IsState (table_size spec)) out0.ans_final_states
    → length out0.ans_vals ≡ length symbols
    → length out0.ans_bits ≡ length symbols
    → encode_ans_in_reverse encoder (symbols ++ junk) out0 ≡ ok out
    → 0 < length symbols
    → length symbols ≤ 256
    → 1 ≤ m
    → m ≤ bits t
    → AreNumbers m vals (bits_of lpd.bin_lowers offs symbols)
    → IsBytes dst
    → value dst < 2 ^ (8 * stale + past)
    → (8 * stale + past + 14 * length symbols + total (bits_of lpd.bin_lowers offs symbols)) / 8
        + 15
      ≤ length dst
    → bit_idx r ≡ 8 * stale + past
    → lpd.needs_ans ≡ true
    → lpd.u64s_per_offset ≡ calc_max_u64s m
    → lpd.state ≡ with_idxs st (indices (table_size spec) out.ans_final_states)
    → HasRoom (length symbols) st
    → length latents ≡ length symbols
    → (s1 : ℕ) × (p1 : ℕ) × (d1 : List ℕ) × (s2 : ℕ) × (p2 : ℕ) × (d2 : List ℕ)
      × (lpd' : LatentPageDecompressor) × (r' : BitReader) × (write_short_uints out.ans_vals
            out.ans_bits stale past dst
          ≡ ok (s1, p1, d1))
      × (write_offsets
            (calc_max_u64s_for_writing m)
            vals
            (bits_of lpd.bin_lowers offs symbols)
            s1
            p1
            d1
          ≡ ok (s2, p2, d2))
      × (decompress_batch_pre_delta (bits t) lpd (record r { src = d2 }) latents
          ≡ ok (lpd', r', add_each (bits t) (lowers_of lpd.bin_lowers offs symbols) vals))
      × (bit_idx r' ≡ 8 * s2 + p2)
      × (lpd'.state.ans_state_idxs ≡ indices (table_size spec) out0.ans_final_states)
decompress_batch_pre_delta-write t m stale past spec encoder offs symbols junk vals dst latents out0
      out lpd st r valid made dec_made n_lowers known four in_table n_vals n_bits runs one batch
      some fits numbers bytes clear room same needs u64s starts has_room len =
    let obits : List ℕ = bits_of lpd.bin_lowers offs symbols in
    let lowers : List ℕ = lowers_of lpd.bin_lowers offs symbols in
    let n_obits : length obits ≡ length symbols = length-map _ symbols in
    let n_offsets : length vals ≡ length symbols =
      AreNumbers-length m vals obits numbers ∙ n_obits in
    let (ans_numbers, n_ans, few) =
      out-AreNumbers spec valid encoder lpd.decoder offs lpd.bin_lowers symbols junk out0 made
        dec_made n_lowers known four in_table n_vals n_bits out runs in
    let w =
      write_both m stale past out.ans_vals out.ans_bits vals obits dst some
        (omega (arith, fits, bits-le t)) ans_numbers numbers
        (subst (λ k. k ≤ 256) (sym n_ans) batch) (subst (λ k. k ≤ 256) (sym n_offsets) batch) bytes
        clear (omega (arith, room, few)) in
    let (r', reads, ends) =
      read_written t m (8 * stale + past) spec encoder offs symbols junk vals latents w.d2 out0 out
        lpd st r valid made dec_made n_lowers known four in_table n_vals n_bits runs one batch some
        fits numbers w.bytes
        (subst (λ k. (8 * stale + past + 14 * length symbols + total obits) / 8 + 15 ≤ k)
          (sym w.size) room)
        same needs u64s starts has_room len few n_offsets w.symbols_here w.offsets_here in
    (
      w.s1,
      w.p1,
      w.d1,
      w.s2,
      w.p2,
      w.d2,
      record lpd {
        state =
            with_idxs (filled lpd.bin_lowers offs 0 0 symbols st)
              (indices (table_size spec) out0.ans_final_states);
      },
      r',
      w.first,
      w.second,
      reads,
      ends ∙ sym w.ends,
      refl,
    )
