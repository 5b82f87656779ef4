-- ===== src/Page/Reading.antt =====
-- Both loops over the symbols of a batch in pco/src/latent_page_decompressor.rs read the bits of the
-- page one after the other, however these lie in bytes and u64s.
use pcodec.Common.{
  ℕ, zero, suc, ◌+◌, ◌-◌, ◌*◌, ◌/◌, ◌%◌, ◌^◌, ◌≤◌, ◌≡◌, refl, sym, ap, ap₂, ◌∙◌, arith, List,
  length, All,
}
use pcodec.Common.Pow.{mod-mod-pow, mod-div-pow, div-div-pow}
use pcodec.Bits.{lowest_bits_fast, lowest_bits_fast_lem}
use pcodec.Machine.{u32, ◌>>>◌}
use pcodec.Errors.{Result, ok, ◌>>=◌, >>=-assoc, >>=-cong, >>=-eq-ok, ok-injective}
use pcodec.Slice.{index, assign, index-All}
use pcodec.Bytes.{value, IsBytes}
use pcodec.BitReader.{BitReader, bit_idx}
use pcodec.BitReader.Reading.{bits_at, u64_at_lem}
use pcodec.Ans.Decoding.{Node}
use pcodec.Page.Symbols.{
  State, set_scratch, ans_val_at, handle_single_symbol, ans_symbols, handle_each, full_ans_symbols,
  decompress_ans_symbols, decompress_full_ans_symbols,
}

ans_val_at_lem :
    (v stale past n : ℕ)
    → past + n ≤ 64
    → n ≤ 14
    → ans_val_at (bits_at v (8 * stale) 64) past n ≡ bits_at v (8 * stale + past) n
ans_val_at_lem v stale past n room small =
    let y : ℕ = v / 2 ^ (8 * stale) in
    let e : 64 ≡ past + (64 - past) = omega arith in
    let shifted : y % 2 ^ 64 / 2 ^ past ≡ v / 2 ^ (8 * stale + past) % 2 ^ (64 - past) =
      ap (λ m. y % 2 ^ m / 2 ^ past) e
      ∙ mod-div-pow y past (64 - past)
      ∙ ap (λ t. t % 2 ^ (64 - past)) (div-div-pow v (8 * stale) past) in
    let masked : ans_val_at (bits_at v (8 * stale) 64) past n
        ≡ u32 (bits_at v (8 * stale) 64 >>> past) % 2 ^ n =
      unfold ans_val_at lowest_bits_fast in
      lowest_bits_fast_lem 32 (u32 (bits_at v (8 * stale) 64 >>> past)) n (omega arith) in
    masked
    ∙ mod-mod-pow (bits_at v (8 * stale) 64 / 2 ^ past) n 32 (omega arith)
    ∙ ap (λ t. t % 2 ^ n) shifted
    ∙ mod-mod-pow (v / 2 ^ (8 * stale + past)) n (64 - past) (omega arith)

module _ (nodes : List Node) (bin_lowers : List ℕ) where
  -- The batch as the page means it: each symbol takes its bits from where the last one ended.
  unfoldable pub symbols_at : ℕ → ℕ → ℕ → ℕ → ℕ → State → Result (ℕ × State)
  unfolding handle_single_symbol
  symbols_at v i zero pos offset_bit_idx st = ok (pos, st)
  symbols_at v i (suc left) pos offset_bit_idx st = do
    (bits_to_read, offset_bit_idx', st') ←
        handle_single_symbol nodes bin_lowers (bits_at v pos) i (i % 4) offset_bit_idx st
    symbols_at v (i + 1) left (pos + bits_to_read) offset_bit_idx' st'

-- The place that a loop ends at, as a position in bits.
abbrev placed : ℕ × ℕ × State → Result (ℕ × State)
placed (stale, past, st) = ok (8 * stale + past, st)

module _ (nodes : List Node) (bin_lowers : List ℕ)
    (few : All (λ node. node.bits_to_read ≤ 14) nodes) where
  handle_cong :
      (f g : ℕ → ℕ) (i j off : ℕ) (st : State)
      → ((n : ℕ) → n ≤ 14 → f n ≡ g n)
      → handle_single_symbol nodes bin_lowers f i j off st
        ≡ handle_single_symbol nodes bin_lowers g i j off st
  unfolding handle_single_symbol
  handle_cong f g i j off st same = >>=-cong (index st.ans_state_idxs j) _ _ λ idx _.
      >>=-cong (index nodes idx) _ _ λ node e.
        ap
          (λ x. do
            lower ← index bin_lowers node.symbol
            st' ← set_scratch st i off node.offset_bits lower
            idxs ← assign st'.ans_state_idxs j (node.next_state_idx_base + x)
            ok (node.bits_to_read, off + node.offset_bits, record st' { ans_state_idxs = idxs }))
          (same node.bits_to_read (index-All (λ node. node.bits_to_read ≤ 14) nodes idx few e))

  -- No symbol takes more than 14 bits.
  handle-few :
      (f : ℕ → ℕ) (i j off : ℕ) (st : State) (end : ℕ × ℕ × State)
      → handle_single_symbol nodes bin_lowers f i j off st ≡ ok end
      → end.0 ≤ 14
  unfolding handle_single_symbol
  handle-few f i j off st end h =
      let (idx, e1, h1) = >>=-eq-ok (index st.ans_state_idxs j) _ h in
      let (node, e2, h2) = >>=-eq-ok (index nodes idx) _ h1 in
      let (lower, e3, h3) = >>=-eq-ok (index bin_lowers node.symbol) _ h2 in
      let (st', e4, h4) = >>=-eq-ok (set_scratch st i off node.offset_bits lower) _ h3 in
      let (idxs, e5, h5) = >>=-eq-ok (assign st'.ans_state_idxs j _) _ h4 in
      rw (← ok-injective _ end h5) (index-All (λ node. node.bits_to_read ≤ 14) nodes idx few e2)

  module _ (src : List ℕ) (bytes : IsBytes src) where
    abbrev v : ℕ
    v = value src

    ans_symbols_lem :
        (i left stale past off : ℕ) (st : State)
        → (8 * stale + past + 14 * left) / 8 + 8 ≤ length src
        → (ans_symbols nodes bin_lowers src i left stale past off st >>= placed)
          ≡ symbols_at nodes bin_lowers v i left (8 * stale + past) off st
    unfolding ans_symbols symbols_at
    ans_symbols_lem i zero stale past off st room = refl
    ans_symbols_lem i (suc left) stale past off st room =
        let stale' : ℕ = stale + past / 8 in
        let past' : ℕ = past % 8 in
        let start : ℕ = 8 * stale' + past' in
        let pos : 8 * stale + past ≡ 8 * stale' + past' = omega arith in
        let packed : ℕ = bits_at v (8 * stale') 64 in
        let next : ℕ × ℕ × State → Result (ℕ × ℕ × State) =
          λ end. ans_symbols nodes bin_lowers src (i + 1) left stale' (past' + end.0) end.1 end.2 in
        let turn : Result (ℕ × ℕ × State) =
          handle_single_symbol nodes bin_lowers (bits_at v start) i (i % 4) off st in
        rw (u64_at_lem src stale' bytes (omega arith), pos)
          (>>=-assoc
              (handle_single_symbol nodes bin_lowers (ans_val_at packed past') i (i % 4) off st)
              next placed
            ∙ ap (λ r. r >>= λ end. next end >>= placed)
                (handle_cong (ans_val_at packed past') (bits_at v start) i (i % 4) off st
                  (λ n small. ans_val_at_lem v stale' past' n (omega arith) small))
            ∙ >>=-cong turn (λ end. next end >>= placed)
                (λ end. symbols_at nodes bin_lowers v (i + 1) left (start + end.0) end.1 end.2)
                (λ end e.
                  let few_bits = handle-few (bits_at v start) i (i % 4) off st end e in
                  let sum : 8 * stale' + (past' + end.0) ≡ start + end.0 = omega arith in
                  ans_symbols_lem (i + 1) left stale' (past' + end.0) end.1 end.2
                    (omega (arith, room, few_bits))
                  ∙ ap (λ t. symbols_at nodes bin_lowers v (i + 1) left t end.1 end.2) sum))

    -- The four states of a group, from the j-th on, and what comes behind the group.
    handle_each_lem :
        (stale g j left more past off : ℕ) (st : State)
        → j + left ≡ 4
        → past + 14 * left ≤ 64
        → (handle_each nodes bin_lowers src (bits_at v (8 * stale) 64) (4 * g) j left past off st
            >>= λ end.
                symbols_at nodes bin_lowers v (4 * g + 4) more (8 * stale + end.0) end.1 end.2)
          ≡ symbols_at nodes bin_lowers v (4 * g + j) (left + more) (8 * stale + past) off st
    unfolding handle_each symbols_at
    handle_each_lem stale g j zero more past off st four room =
        let here : 4 * g + 4 ≡ 4 * g + j = omega arith in
        let none : 0 + more ≡ more = omega arith in rw (here, none) refl
    handle_each_lem stale g j (suc left) more past off st four room =
        let packed : ℕ = bits_at v (8 * stale) 64 in
        let start : ℕ = 8 * stale + past in
        let slot : (4 * g + j) % 4 ≡ j = omega arith in
        let shape : suc left + more ≡ suc (left + more) = omega arith in
        let next : ℕ × ℕ × State → Result (ℕ × ℕ × State) = λ end.
          handle_each nodes bin_lowers src packed (4 * g) (j + 1) left (past + end.0) end.1 end.2 in
        let after : ℕ × ℕ × State → Result (ℕ × State) =
          λ end. symbols_at nodes bin_lowers v (4 * g + 4) more (8 * stale + end.0) end.1 end.2 in
        let turn : Result (ℕ × ℕ × State) =
          handle_single_symbol nodes bin_lowers (bits_at v start) (4 * g + j) j off st in
        rw (shape, slot)
          (>>=-assoc
              (handle_single_symbol nodes bin_lowers (ans_val_at packed past) (4 * g + j) j off st)
              next after
            ∙ ap (λ r. r >>= λ end. next end >>= after)
                (handle_cong (ans_val_at packed past) (bits_at v start) (4 * g + j) j off st
                  (λ n small. ans_val_at_lem v stale past n (omega arith) small))
            ∙ >>=-cong turn (λ end. next end >>= after)
                (λ end.
                  symbols_at nodes bin_lowers v (4 * g + j + 1) (left + more) (start + end.0) end.1
                    end.2)
                (λ end e.
                  let few_bits = handle-few (bits_at v start) (4 * g + j) j off st end e in
                  let sum : 8 * stale + (past + end.0) ≡ start + end.0 = omega arith in
                  let place : 4 * g + (j + 1) ≡ 4 * g + j + 1 = omega arith in
                  handle_each_lem stale g (j + 1) left more (past + end.0) end.1 end.2 (omega arith)
                    (omega (arith, room, few_bits))
                  ∙ ap₂ (λ t q. symbols_at nodes bin_lowers v q (left + more) t end.1 end.2) sum
                      place))

    handle_each-few :
        (packed base j left past off : ℕ) (st : State) (end : ℕ × ℕ × State)
        → handle_each nodes bin_lowers src packed base j left past off st ≡ ok end
        → end.0 ≤ past + 14 * left
    unfolding handle_each
    handle_each-few packed base j zero past off st end h = rw (← ok-injective _ end h) (omega arith)
    handle_each-few packed base j (suc left) past off st end h =
        let (turn, e, h1) =
          >>=-eq-ok
            (handle_single_symbol nodes bin_lowers (ans_val_at packed past) (base + j) j off st) _
            h in
        omega (
          arith,
          handle-few (ans_val_at packed past) (base + j) j off st turn e,
          handle_each-few packed base (j + 1) left (past + turn.0) turn.1 turn.2 end h1,
        )

    full_ans_symbols_lem :
        (g left stale past off : ℕ) (st : State)
        → (8 * stale + past + 14 * (4 * left)) / 8 + 8 ≤ length src
        → (full_ans_symbols nodes bin_lowers src (4 * g) left stale past off st >>= placed)
          ≡ symbols_at nodes bin_lowers v (4 * g) (4 * left) (8 * stale + past) off st
    unfolding full_ans_symbols symbols_at
    full_ans_symbols_lem g zero stale past off st room = refl
    full_ans_symbols_lem g (suc left) stale past off st room =
        let stale' : ℕ = stale + past / 8 in
        let past' : ℕ = past % 8 in
        let pos : 8 * stale + past ≡ 8 * stale' + past' = omega arith in
        let packed : ℕ = bits_at v (8 * stale') 64 in
        let shape : 4 * suc left ≡ 4 + 4 * left = omega arith in
        let group : 4 * g + 4 ≡ 4 * suc g = omega arith in
        let first : 4 * g + 0 ≡ 4 * g = omega arith in
        let next : ℕ × ℕ × State → Result (ℕ × ℕ × State) =
          λ end. full_ans_symbols nodes bin_lowers src (4 * g + 4) left stale' end.0 end.1 end.2 in
        let four : Result (ℕ × ℕ × State) =
          handle_each nodes bin_lowers src packed (4 * g) 0 4 past' off st in
        rw (u64_at_lem src stale' bytes (omega arith), pos, shape)
          (>>=-assoc four next placed
            ∙ >>=-cong four (λ end. next end >>= placed)
                (λ end.
                  symbols_at nodes bin_lowers v (4 * g + 4) (4 * left) (8 * stale' + end.0) end.1
                    end.2)
                (λ end e.
                  let few_bits = handle_each-few packed (4 * g) 0 4 past' off st end e in
                  rw group (
                    full_ans_symbols_lem (suc g) left stale' end.0 end.1 end.2
                      (omega (arith, room, few_bits))))
            ∙ handle_each_lem stale' g 0 4 (4 * left) past' off st (omega arith) (omega arith)
            ∙ ap (λ q. symbols_at nodes bin_lowers v q (4 + 4 * left) (8 * stale' + past') off st)
                first)

-- The place of the reader, as a position in bits, and the state.
abbrev pub seen : BitReader × State → Result (ℕ × State)
seen (r, st) = ok (bit_idx r, st)

-- No node of the table takes more than 14 bits, the source is bytes, and it goes on for 8 bytes from
-- the byte where the batch can end at the latest. Then the loop for any number of symbols does what the
-- batch means: each symbol takes its bits from where the last one ended, and the reader stops behind
-- the last one. It fails only where that fails.
pub decompress_ans_symbols-eq-symbols_at :
    (nodes : List Node) (bin_lowers : List ℕ) (r : BitReader) (batch_n : ℕ) (st : State)
    → All (λ node. node.bits_to_read ≤ 14) nodes
    → IsBytes r.src
    → (bit_idx r + 14 * batch_n) / 8 + 8 ≤ length r.src
    → (decompress_ans_symbols nodes bin_lowers r batch_n st >>= seen)
      ≡ symbols_at nodes bin_lowers (value r.src) 0 batch_n (bit_idx r) 0 st
unfolding decompress_ans_symbols
decompress_ans_symbols-eq-symbols_at nodes bin_lowers r batch_n st few bytes room =
    >>=-assoc (ans_symbols nodes bin_lowers r.src 0 batch_n r.stale_byte_idx r.bits_past_byte 0 st)
      _ seen
    ∙ >>=-cong (ans_symbols nodes bin_lowers r.src 0 batch_n r.stale_byte_idx r.bits_past_byte 0 st)
        _ placed (λ end _. ap (λ t. ok (t, end.2)) (omega arith))
    ∙ ans_symbols_lem nodes bin_lowers few r.src bytes 0 batch_n r.stale_byte_idx r.bits_past_byte 0
        st (rw place at room)
    ∙ ap (λ t. symbols_at nodes bin_lowers (value r.src) 0 batch_n t 0 st) (sym place)
  where
    place : bit_idx r ≡ 8 * r.stale_byte_idx + r.bits_past_byte
    place = omega arith

-- No node of the table takes more than 14 bits, the source is bytes, and it goes on for 8 bytes from
-- the byte where 256 symbols can end at the latest. Then the loop for a full batch, which reads four
-- symbols from one u64, ends with the same state and at the same bit as the loop for any number of
-- symbols does for 256 of them, or both fail alike.
pub decompress_full_ans_symbols-eq :
    (nodes : List Node) (bin_lowers : List ℕ) (r : BitReader) (st : State)
    → All (λ node. node.bits_to_read ≤ 14) nodes
    → IsBytes r.src
    → (bit_idx r + 14 * 256) / 8 + 8 ≤ length r.src
    → (decompress_full_ans_symbols nodes bin_lowers r st >>= seen)
      ≡ (decompress_ans_symbols nodes bin_lowers r 256 st >>= seen)
unfolding decompress_full_ans_symbols
decompress_full_ans_symbols-eq nodes bin_lowers r st few bytes room =
    >>=-assoc (full_ans_symbols nodes bin_lowers r.src 0 64 r.stale_byte_idx r.bits_past_byte 0 st)
      _ seen
    ∙ >>=-cong (full_ans_symbols nodes bin_lowers r.src 0 64 r.stale_byte_idx r.bits_past_byte 0 st)
        _ placed (λ end _. ap (λ t. ok (t, end.2)) (omega arith))
    ∙ full_ans_symbols_lem nodes bin_lowers few r.src bytes 0 64 r.stale_byte_idx r.bits_past_byte 0
        st (omega (arith, room))
    ∙ ap (λ t. symbols_at nodes bin_lowers (value r.src) 0 256 t 0 st) {y = bit_idx r} (omega arith)
    ∙ sym (decompress_ans_symbols-eq-symbols_at nodes bin_lowers r 256 st few bytes room)
