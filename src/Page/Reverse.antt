-- ===== src/Page/Reverse.antt =====
-- The loops of `encode_ans_in_reverse` in pco/src/latent_batch_dissector.rs go through the batch from the
-- last symbol to the first.
use pcodec.Common.{
  ℕ, zero, suc, ◌+◌, ◌*◌, ◌/◌, ◌%◌, ◌≤◌, ◌<◌, ◌≡◌, refl, sym, ap, ◌∙◌, arith, List, [], ◌∷◌, ◌++◌,
  length, set, get_or, get_or-append, take, drop, length-append, length-take, append-nil,
}
use pcodec.Errors.{Result, ok, ◌>>=◌, >>=-assoc, >>=-cong}
use pcodec.Slice.{index, assign, assign-eq-ok, index-eq-get_or}
use pcodec.Bits.{lowest_bits_fast}
use pcodec.Ans.Encoding.{Encoder, encode}
use pcodec.Page.Dissect.{AnsOut, encode_symbol, encode_group, encode_groups, encode_ans_in_reverse}
use pcodec.Page.Interleaved.{encode_all}

drop_cons : (m : ℕ) (xs : List ℕ) → m < length xs → drop m xs ≡ get_or xs m 0 ∷ drop (suc m) xs
drop_cons m [] h = absurd (omega arith)
drop_cons zero (x ∷ xs) h = refl
drop_cons (suc m) (x ∷ xs) h = drop_cons m xs (omega arith)

drop_all : (xs : List ℕ) → drop (length xs) xs ≡ []
drop_all [] = refl
drop_all (x ∷ xs) = drop_all xs

-- The last place of the front becomes the first behind it.
set_front :
    (front xs : List ℕ) (m v : ℕ)
    → length front ≡ suc m
    → set (front ++ xs) m v ≡ take m front ++ (v ∷ xs)
set_front [] xs m v h = absurd (omega arith)
set_front (x ∷ []) xs zero v h = refl
set_front (x ∷ y ∷ front) xs zero v h = absurd (omega arith)
set_front (x ∷ front) xs (suc m) v h = ap (◌∷◌ x) (set_front front xs m v (omega arith))

module _ (encoder : Encoder) (symbols : List ℕ) where
  -- One loop over all indices below `left`, downwards.
  encode_down : ℕ → AnsOut → Result AnsOut
  encode_down zero out = ok out
  encode_down (suc left) out = do
    out' ← encode_symbol encoder symbols left (left % 4) out
    encode_down left out'

  group_lem :
      (g left : ℕ) (out : AnsOut)
      → left ≤ 4
      → (encode_group encoder symbols (4 * g) left out >>= encode_down (4 * g))
        ≡ encode_down (4 * g + left) out
  unfolding encode_group encode_down
  group_lem g zero out h = let e : 4 * g + 0 ≡ 4 * g = omega arith in rw e refl
  group_lem g (suc left) out h =
      let e : 4 * g + suc left ≡ suc (4 * g + left) = omega arith in
      let slot : (4 * g + left) % 4 ≡ left = omega arith in
      let turn : Result AnsOut = encode_symbol encoder symbols (4 * g + left) left out in
      rw (e, slot)
        (>>=-assoc turn (encode_group encoder symbols (4 * g) left) (encode_down (4 * g))
          ∙ >>=-cong turn _ (encode_down (4 * g + left))
              (λ out' _. group_lem g left out' (omega arith)))

  groups_lem :
      (g : ℕ) (out : AnsOut) → encode_groups encoder symbols g out ≡ encode_down (4 * g) out
  unfolding encode_groups encode_down
  groups_lem zero out = refl
  groups_lem (suc g) out =
      let e : g * 4 ≡ 4 * g = omega arith in
      let e' : 4 * suc g ≡ 4 * g + 4 = omega arith in
      let four : Result AnsOut = encode_group encoder symbols (4 * g) 4 out in
      rw (e, e')
        (>>=-cong four (encode_groups encoder symbols g) (encode_down (4 * g))
            (λ out' _. groups_lem g out')
          ∙ group_lem g 4 out (omega arith))

  reverse_lem :
      (out : AnsOut)
      → encode_ans_in_reverse encoder symbols out ≡ encode_down (length out.ans_vals) out
  unfolding encode_ans_in_reverse
  reverse_lem out =
      let n : ℕ = length out.ans_vals in
      let base : n / 4 * 4 ≡ 4 * (n / 4) = omega arith in
      let whole : 4 * (n / 4) + n % 4 ≡ n = omega arith in
      let jagged : Result AnsOut = encode_group encoder symbols (4 * (n / 4)) (n % 4) out in
      rw base (
        >>=-cong jagged (encode_groups encoder symbols (n / 4)) (encode_down (4 * (n / 4)))
          (λ out' _. groups_lem (n / 4) out')
        ∙ group_lem (n / 4) (n % 4) out (omega arith)
        ∙ ap (λ t. encode_down t out) whole)

-- What the loops write, from what comes back for the symbols.
abbrev pub written : List ℕ → List ℕ → List ℕ × List ℕ × List ℕ → AnsOut
written vals bits (states, xs, ns) = record {
  ans_vals = vals ++ xs;
  ans_bits = bits ++ ns;
  ans_final_states = states;
}

-- What one symbol adds to what comes back for those behind it.
Turn : Encoder → ℕ → ℕ → List ℕ × List ℕ × List ℕ → Result (List ℕ × List ℕ × List ℕ)
Turn encoder i symbol r = index r.0 (i % 4) >>= λ state. encode encoder state symbol >>= λ turn.
    assign r.0 (i % 4) turn.0 >>= λ states.
    ok (states, lowest_bits_fast 32 state turn.1 ∷ r.1, turn.1 ∷ r.2)

module _ (encoder : Encoder) (symbols junk start : List ℕ) where
  symbol_lem :
      (m : ℕ) (vals bits : List ℕ) (r : List ℕ × List ℕ × List ℕ)
      → m < length symbols
      → length vals ≡ suc m
      → length bits ≡ suc m
      → encode_symbol encoder (symbols ++ junk) m (m % 4) (written vals bits r) ≡ (
          Turn encoder m (get_or symbols m 0) r >>= λ q. ok (written (take m vals) (take m bits) q))
  unfolding encode_symbol Turn
  symbol_lem m vals bits r lt nv nb =
      let j : ℕ = m % 4 in
      let s : ℕ = get_or symbols m 0 in
      let h : List ℕ × List ℕ × List ℕ → Result AnsOut =
        λ q. ok (written (take m vals) (take m bits) q) in
      let third : ℕ → ℕ × ℕ → List ℕ → Result (List ℕ × List ℕ × List ℕ) =
        λ state turn states. ok (states, lowest_bits_fast 32 state turn.1 ∷ r.1, turn.1 ∷ r.2) in
      let second : ℕ → ℕ × ℕ → Result (List ℕ × List ℕ × List ℕ) =
        λ state turn. assign r.0 j turn.0 >>= third state turn in
      let first : ℕ → Result (List ℕ × List ℕ × List ℕ) =
        λ state. encode encoder state s >>= second state in
      >>=-cong (index r.0 j) _ (λ state. first state >>= h)
        (λ state _.
          rw
            (
              index-eq-get_or (symbols ++ junk) m 0 (rw length-append (omega (arith, lt))),
              get_or-append symbols junk m 0 lt,
            )
            (>>=-cong (encode encoder state s) _ (λ turn. second state turn >>= h)
                (λ turn _.
                  rw
                    (
                      assign-eq-ok (vals ++ r.1) m (lowest_bits_fast 32 state turn.1)
                          (rw length-append (omega (arith, nv))),
                      set_front vals r.1 m (lowest_bits_fast 32 state turn.1) nv,
                      assign-eq-ok (bits ++ r.2) m turn.1 (rw length-append (omega (arith, nb))),
                      set_front bits r.2 m turn.1 nb,
                    )
                    (sym (>>=-assoc (assign r.0 j turn.0) (third state turn) h)))
              ∙ sym (>>=-assoc (encode encoder state s) (second state) h)))
      ∙ sym (>>=-assoc (index r.0 j) first h)

  cons_lem :
      (m s : ℕ) (rest : List ℕ)
      → encode_all encoder m (s ∷ rest) start
        ≡ (encode_all encoder (m + 1) rest start >>= Turn encoder m s)
  unfolding encode_all Turn
  cons_lem m s rest = refl

  down_lem :
      (m : ℕ) (vals bits : List ℕ)
      → m ≤ length symbols
      → length vals ≡ m
      → length bits ≡ m
      → (encode_all encoder m (drop m symbols) start >>= λ r.
          encode_down encoder (symbols ++ junk) m (written vals bits r))
        ≡ (encode_all encoder 0 symbols start >>= λ r. ok (written [] [] r))
  unfolding encode_down
  down_lem zero [] [] le nv nb = refl
  down_lem zero (x ∷ vals) bits le nv nb = absurd (omega arith)
  down_lem zero [] (x ∷ bits) le nv nb = absurd (omega arith)
  down_lem (suc m) vals bits le nv nb =
      let s : ℕ = get_or symbols m 0 in
      let e : suc m ≡ m + 1 = omega arith in
      let behind : Result (List ℕ × List ℕ × List ℕ) =
        encode_all encoder (m + 1) (drop (suc m) symbols) start in
      let h : List ℕ × List ℕ × List ℕ → Result AnsOut =
        λ q. ok (written (take m vals) (take m bits) q) in
      let down : AnsOut → Result AnsOut = encode_down encoder (symbols ++ junk) m in
      ap
        (λ t. encode_all encoder t (drop (suc m) symbols) start >>= λ r.
          encode_symbol encoder (symbols ++ junk) m (m % 4) (written vals bits r) >>= down)
        e
      ∙ >>=-cong behind _
          (λ r. Turn encoder m s r >>= λ q. down (written (take m vals) (take m bits) q))
          (λ r _.
            ap (λ t. t >>= down) (symbol_lem m vals bits r le nv nb)
            ∙ >>=-assoc (Turn encoder m s r) h down)
      ∙ sym
          (>>=-assoc behind (Turn encoder m s) (λ q. down (written (take m vals) (take m bits) q)))
      ∙ ap (λ t. t >>= λ q. down (written (take m vals) (take m bits) q))
          (sym (cons_lem m s (drop (suc m) symbols))
            ∙ ap (λ t. encode_all encoder m t start) (sym (drop_cons m symbols le)))
      ∙ down_lem m (take m vals) (take m bits) (omega arith)
          (length-take m vals ∙ omega (arith, nv)) (length-take m bits ∙ omega (arith, nb))

-- The arrays that are written to are as long as the batch of symbols. Then the two loops, over the last
-- few symbols and over the groups of four, do what going through the symbols from the last to the
-- first does, each in the state of its index modulo 4, and they fail only where that fails: the
-- arrays hold the numbers and their counts of bits in the order of the symbols.
pub encode_ans_in_reverse-eq-encode_all :
    (encoder : Encoder) (symbols junk : List ℕ) (out : AnsOut)
    → length out.ans_vals ≡ length symbols
    → length out.ans_bits ≡ length symbols
    → encode_ans_in_reverse encoder (symbols ++ junk) out
      ≡ (encode_all encoder 0 symbols out.ans_final_states >>= λ r. ok (written [] [] r))
encode_ans_in_reverse-eq-encode_all encoder symbols junk out nv nb =
    reverse_lem encoder (symbols ++ junk) out
    ∙ ap (λ t. encode_down encoder (symbols ++ junk) t out) nv
    ∙ start_lem
    ∙ down_lem encoder symbols junk out.ans_final_states (length symbols) out.ans_vals out.ans_bits
        (omega arith) nv nb
  where
    down : AnsOut → Result AnsOut
    down = encode_down encoder (symbols ++ junk) (length symbols)

    start_lem : down out ≡ (
        encode_all encoder (length symbols) (drop (length symbols) symbols) out.ans_final_states
        >>= λ r. down (written out.ans_vals out.ans_bits r))
    start_lem =
        let none : encode_all encoder (length symbols) [] out.ans_final_states
            ≡ ok (out.ans_final_states, [], []) =
          unfold encode_all in refl in
        rw (drop_all symbols, none, append-nil out.ans_vals, append-nil out.ans_bits) refl
