-- ===== src/Page/Interleaved.antt =====
-- A batch of symbols through the four ANS states of pco/src: what the loops of
-- pco/src/latent_batch_dissector.rs write, those of pco/src/latent_page_decompressor.rs read.
use pcodec.Common.{
  ℕ, zero, suc, ◌+◌, ◌-◌, ◌*◌, ◌/◌, ◌%◌, ◌^◌, ◌≤◌, ◌<◌, ◌≡◌, refl, sym, ap, ◌∙◌, arith, List, [],
  ◌∷◌, length, set, map, get_or, All, All-set, get_or-All, length-set, length-map,
}
use pcodec.Common.Pow.{mod_of_eq, div_of_eq, mod-mod-pow, mod-div-pow, div-div-pow, two-pow-pos}
use pcodec.Machine.{u16}
use pcodec.Errors.{Result, ok, ◌>>=◌}
use pcodec.Slice.{index, assign, assign-eq-ok, index-eq-get_or, index-map, index-set_self}
use pcodec.Bits.{lowest_bits_fast, lowest_bits_fast_lem}
use pcodec.BitReader.Reading.{bits_at}
use pcodec.Ans.Spec.{Spec, table_size}
use pcodec.Ans.Encoding.{Encoder, new_encoder, encode}
use pcodec.Ans.Decoding.{Decoder, new_decoder}
use pcodec.Ans.RoundTrip.{IsValid, Undoes, encode-Undoes}
use pcodec.Page.Symbols.{State, handle_single_symbol}
use pcodec.Page.Reading.{symbols_at}
use native.Mathlib.Nat.{mod-lt}

-- The symbols of a batch from the i-th on, the last one first: the states, and the numbers to be
-- written with their counts of bits, in the order of the symbols.
unfoldable pub encode_all : Encoder → ℕ → List ℕ → List ℕ → Result (List ℕ × List ℕ × List ℕ)
encode_all encoder i [] states = ok (states, [], [])
encode_all encoder i (symbol ∷ symbols) states = do
  (states', vals, bits) ← encode_all encoder (i + 1) symbols states
  state ← index states' (i % 4)
  (next, n) ← encode encoder state symbol
  states'' ← assign states' (i % 4) next
  ok (states'', lowest_bits_fast 32 state n ∷ vals, n ∷ bits)

abbrev pub total : List ℕ → ℕ
total [] = 0
total (n ∷ bits) = n + total bits

-- The numbers one behind the other, the first one lowest.
abbrev pub joined : List ℕ → List ℕ → ℕ
joined (x ∷ vals) (n ∷ bits) = x + 2 ^ n * joined vals bits
joined [] bits = 0
joined (x ∷ vals) [] = 0

-- The numbers with their counts of bits, each of at most `limit` bits.
abbrev pub AreNumbers : ℕ → List ℕ → List ℕ → Type 0
AreNumbers limit [] [] = Unit
AreNumbers limit (val ∷ vals) (n ∷ bits) = (val < 2 ^ n) × (n ≤ limit) × AreNumbers limit vals bits
AreNumbers limit [] (n ∷ bits) = ⊥
AreNumbers limit (val ∷ vals) [] = ⊥

-- A state of the table.
abbrev pub IsState : ℕ → ℕ → Type 0
IsState size x = (size ≤ x) × (x < 2 * size)

-- What the decoder works with: the states less the table size.
abbrev pub indices : ℕ → List ℕ → List ℕ
indices size states = map (λ x. x - size) states

-- The scratch arrays that the symbols stand for, from the i-th on.
abbrev pub filled : List ℕ → List ℕ → ℕ → ℕ → List ℕ → State → State
filled bin_lowers offs i off [] st = st
filled bin_lowers offs i off (symbol ∷ symbols) st =
    filled bin_lowers offs (i + 1) (off + u16 (get_or offs symbol 0)) symbols (record st {
      offset_bits_csum_scratch = set st.offset_bits_csum_scratch i off;
      offset_bits_scratch = set st.offset_bits_scratch i (u16 (get_or offs symbol 0));
      lowers_scratch = set st.lowers_scratch i (get_or bin_lowers symbol 0);
    })

abbrev pub with_idxs : State → List ℕ → State
with_idxs st idxs = record st { ans_state_idxs = idxs }

map-set : (f : ℕ → ℕ) (xs : List ℕ) (i v : ℕ) → map f (set xs i v) ≡ set (map f xs) i (f v)
map-set f [] i v = refl
map-set f (x ∷ xs) zero v = refl
map-set f (x ∷ xs) (suc i) v = ap (◌∷◌ (f x)) (map-set f xs i v)

set-set : (xs : List ℕ) (i v u : ℕ) → set (set xs i v) i u ≡ set xs i u
set-set [] i v u = refl
set-set (x ∷ xs) zero v u = refl
set-set (x ∷ xs) (suc i) v u = ap (◌∷◌ x) (set-set xs i v u)

set-get_or : (xs : List ℕ) (i : ℕ) → set xs i (get_or xs i 0) ≡ xs
set-get_or [] i = refl
set-get_or (x ∷ xs) zero = refl
set-get_or (x ∷ xs) (suc i) = ap (◌∷◌ x) (set-get_or xs i)

-- The first number and the others, when they stand one behind the other.
pub split :
    (v pos n m first others : ℕ)
    → first < 2 ^ n
    → bits_at v pos (n + m) ≡ first + 2 ^ n * others
    → (bits_at v pos n ≡ first) × (bits_at v (pos + n) m ≡ others)
split v pos n m first others small here =
    let y : ℕ = v / 2 ^ pos in
    (
      sym (mod-mod-pow y n (n + m) (omega arith))
          ∙ rw here (mod_of_eq (first + 2 ^ n * others) others (2 ^ n) first (omega arith) small),
      rw (← div-div-pow v pos n) (
          sym (mod-div-pow y n m)
          ∙ rw here (div_of_eq (first + 2 ^ n * others) others (2 ^ n) first (omega arith) small)),
    )

-- The scratch arrays have room.
pub record HasRoom (n : ℕ) (st : State) : Type 0 where
  pub csums : n ≤ length st.offset_bits_csum_scratch
  pub bits : n ≤ length st.offset_bits_scratch
  pub lowers : n ≤ length st.lowers_scratch

module _ (spec : Spec) (valid : IsValid spec) (encoder : Encoder) (decoder : Decoder)
    (offs bin_lowers : List ℕ) (made : new_encoder spec ≡ ok encoder)
    (dec_made : new_decoder spec offs ≡ ok decoder)
    (n_lowers : length bin_lowers ≡ length spec.symbol_weights) where
  abbrev size : ℕ
  size = table_size spec

  -- How the symbols come back, read from the position `pos` of `v`.
  abbrev Back : ℕ → List ℕ → List ℕ → List ℕ → List ℕ → List ℕ → Type 0
  Back i symbols start states vals bits =
      (v pos off : ℕ) (st : State)
      → bits_at v pos (total bits) ≡ joined vals bits
      → HasRoom (i + length symbols) st
      → symbols_at decoder.nodes bin_lowers v i (length symbols) pos off
          (with_idxs st (indices size states))
        ≡ ok (
          pos + total bits,
          with_idxs (filled bin_lowers offs i off symbols st) (indices size start),
        )

  abbrev put : ℕ → ℕ → ℕ → State → State
  put i s off st = record st {
    offset_bits_csum_scratch = set st.offset_bits_csum_scratch i off;
    offset_bits_scratch = set st.offset_bits_scratch i (u16 (get_or offs s 0));
    lowers_scratch = set st.lowers_scratch i (get_or bin_lowers s 0);
  }

  -- One symbol comes back, and its state is as it was before.
  handle_lem :
      (i s off x next n : ℕ) (states : List ℕ) (st : State) (read : ℕ → ℕ) (m : ℕ)
      → s < length spec.symbol_weights
      → i % 4 < length states
      → (undone : Undoes decoder (table_size spec) s (get_or offs s 0) x next n)
      → x ≡ get_or states (i % 4) 0
      → read n ≡ x % 2 ^ n
      → HasRoom (i + suc m) st
      → handle_single_symbol decoder.nodes bin_lowers read i
          (i % 4)
          off
          (with_idxs st (indices size (set states (i % 4) next)))
        ≡ ok (n, off + u16 (get_or offs s 0), with_idxs (put i s off st) (indices size states))
  unfolding handle_single_symbol
  handle_lem i s off x next n states st read m hs slot undone e reads room =
      let j : ℕ = i % 4 in
      let f : ℕ → ℕ = λ y. y - size in
      let idxs : List ℕ = indices size (set states j next) in
      let at : index idxs j ≡ ok (next - size) =
        index-map f (set states j next) j (index-set_self states j next slot) in
      let n_idxs : length idxs ≡ length states =
        length-map f (set states j next) ∙ length-set states j next in
      let back : set idxs j (x - size) ≡ indices size states =
        sym (map-set f (set states j next) j x)
        ∙ ap (indices size) (set-set states j next x ∙ rw e (set-get_or states j)) in
      rw
        (
          at,
          undone.found,
          undone.symbol_back,
          index-eq-get_or bin_lowers s 0 (omega (arith, n_lowers, hs)),
          assign-eq-ok st.offset_bits_csum_scratch i off (omega (arith, room.csums)),
          assign-eq-ok st.offset_bits_scratch i undone.node.offset_bits (omega (arith, room.bits)),
          assign-eq-ok st.lowers_scratch i (get_or bin_lowers s 0) (omega (arith, room.lowers)),
          undone.bits_back,
          reads,
          undone.state_back,
          assign-eq-ok idxs j (x - size) (omega (arith, n_idxs, slot)),
          back,
          undone.offset_back,
        )
        refl

  pub record Encoded (i : ℕ) (symbols start : List ℕ) : Type 0 where
    pub states : List ℕ
    pub vals : List ℕ
    pub bits : List ℕ
    pub runs : encode_all encoder i symbols start ≡ ok (states, vals, bits)
    pub four : length states ≡ 4
    pub in_table : All (IsState size) states
    pub few : total bits ≤ 14 * length symbols
    pub numbers : AreNumbers 14 vals bits
    pub n_vals : length vals ≡ length symbols
    pub back : Back i symbols start states vals bits

  pub encode_all-Encoded :
      (i : ℕ) (symbols start : List ℕ)
      → length start ≡ 4
      → All (IsState size) start
      → All (λ s. s < length spec.symbol_weights) symbols
      → Encoded i symbols start
  unfolding encode_all symbols_at
  encode_all-Encoded i [] start four h known = record {
    states = start;
    vals = [];
    bits = [];
    runs = refl;
    four = four;
    in_table = h;
    few = omega arith;
    numbers = tt;
    n_vals = refl;
    back =
        λ v pos off st here room. ap (λ t. ok (t, with_idxs st (indices size start))) (omega arith);
  }
  encode_all-Encoded i (s ∷ symbols) start four h (hs, known) =
      let rest = encode_all-Encoded (i + 1) symbols start four h known in
      let j : ℕ = i % 4 in
      let x : ℕ = get_or rest.states j 0 in
      let slot : j < length rest.states = omega (arith, rest.four) in
      let (lo, hi) = get_or-All (IsState size) rest.states j 0 rest.in_table slot in
      let (next, n, runs, undone) =
        encode-Undoes spec valid encoder decoder offs x s made dec_made lo hi hs in
      let low : lowest_bits_fast 32 x n ≡ x % 2 ^ n =
        lowest_bits_fast_lem 32 x n (omega (arith, undone.few_bits)) in
      record {
        states = set rest.states j next;
        vals = lowest_bits_fast 32 x n ∷ rest.vals;
        bits = n ∷ rest.bits;
        runs =
            rw
              (
                rest.runs,
                index-eq-get_or rest.states j 0 slot,
                runs,
                assign-eq-ok rest.states j next slot,
              )
              refl;
        four = length-set rest.states j next ∙ rest.four;
        in_table = All-set (IsState size) rest.states j next undone.in_table rest.in_table;
        few = omega (arith, rest.few, undone.few_bits);
        numbers = (rw low (mod-lt x (two-pow-pos n)), undone.few_bits, rest.numbers);
        n_vals = ap suc rest.n_vals;
        back = λ v pos off st here room.
            let (first, others) =
              split v pos n (total rest.bits) (lowest_bits_fast 32 x n) (joined rest.vals rest.bits)
                (rw low (mod-lt x (two-pow-pos n))) here in
            let handled =
              handle_lem i s off x next n rest.states st (bits_at v pos) (length symbols) hs slot
                undone refl (first ∙ low) room in
            let sum : pos + n + total rest.bits ≡ pos + (n + total rest.bits) = omega arith in
            rw handled (
              rest.back v (pos + n) (off + u16 (get_or offs s 0)) (put i s off st) others (record {
                csums = rw length-set (omega (arith, room.csums));
                bits = rw length-set (omega (arith, room.bits));
                lowers = rw length-set (omega (arith, room.lowers));
              })
              ∙ ap
                  (λ t. ok (
                    t,
                    with_idxs
                        (filled bin_lowers offs (i + 1) (off + u16 (get_or offs s 0)) symbols
                          (put i s off st))
                        (indices size start),
                  ))
                  sum);
      }
