-- ===== src/Ans/RoundTrip.antt =====
-- One symbol through pco/src/ans: what the encoder's table does to a state, the decoder's undoes.
use pcodec.Common.{
  ℕ, ◌+◌, ◌-◌, ◌*◌, ◌/◌, ◌%◌, ◌^◌, ◌≤◌, ◌<◌, ◌≡◌, refl, sym, ap, ◌∙◌, arith, le→leb, List, length,
  length-map, get_or, map, All,
}
use pcodec.Common.Pow.{ilog2, ilog2_bounds, pow_mono, pow_split}
use pcodec.Machine.{u16}
use pcodec.Errors.{ok, >>=-eq-ok, ok-injective}
use pcodec.Slice.{index, index-lt, index_ok, index-map}
use pcodec.Ans.Spec.{Spec, table_size}
use pcodec.Ans.Encoding.{symbol_infos_of, Encoder, new_encoder, renorm_bits, encode}
use pcodec.Ans.Decoding.{Node, make_nodes, Decoder, new_decoder}
use pcodec.Ans.Positions.{
  positions, count, count-le, length-positions, positions_bounds, with_states, push_states_lem,
  push_states_ok, make_nodes_at,
}
use pcodec.Ans.Renorm.{IsRenormed, built_info, built_info-IsRenormed, symbol_infos_ok}
use pcodec.Ans.NodeOf.{built_node, make_node_ok}
use native.Mathlib.Nat.{div-add-mod', mul-le-mul_right}

-- A table in which each symbol stands as often as its weight says.
pub record IsValid (spec : Spec) : Type 0 where
  pub small : spec.size_log ≤ 14
  pub n_states : length spec.state_symbols ≡ 2 ^ spec.size_log
  pub n_symbols : length spec.symbol_weights ≤ 2 ^ spec.size_log
  pub known : All (λ s. s < length spec.symbol_weights) spec.state_symbols
  pub positive : (s w : ℕ) → index spec.symbol_weights s ≡ ok w → 0 < w
  pub counted : (s w : ℕ) → index spec.symbol_weights s ≡ ok w → count s spec.state_symbols ≡ w

module _ (k x r w : ℕ) (small : k ≤ 14) (x_lo : 2 ^ k ≤ x) (x_hi : x < 2 * 2 ^ k) (pos : 0 < w)
    (renormed : IsRenormed k w x r) where
  size_bound : 2 ^ k ≤ 16384
  size_bound = pow_mono k 14 small

  x_s-le : x / 2 ^ r * 2 ^ r + x % 2 ^ r ≡ x
  x_s-le = div-add-mod' x (2 ^ r)

  bits_lem : k - ilog2 (x / 2 ^ r) ≡ r
  bits_lem = omega (arith, renormed.log, renormed.at_most)

  base_bound : 2 ^ k ≤ x / 2 ^ r * 2 ^ r
  base_bound =
      let logged : 2 ^ ilog2 (x / 2 ^ r) ≤ x / 2 ^ r =
        (ilog2_bounds (x / 2 ^ r) (omega (arith, renormed.lower))).0 in
      let small_power : 2 ^ (k - r) ≤ x / 2 ^ r = rw renormed.log at logged in
      omega (arith, mul-le-mul_right (2 ^ r) small_power, pow_split r k renormed.at_most)

  -- The node that a decoder has for a renormalised state undoes the renormalisation.
  node_lem :
      (s off : ℕ)
      → s < 2 ^ k
      → ((built_node k s (x / 2 ^ r) off).symbol ≡ s)
        × ((built_node k s (x / 2 ^ r) off).bits_to_read ≡ r)
        × ((built_node k s (x / 2 ^ r) off).next_state_idx_base + x % 2 ^ r ≡ x - 2 ^ k)
  node_lem s off h = rw bits_lem (
    omega (arith, size_bound),
    omega (arith, renormed.at_most, small),
    omega (arith, x_s-le, base_bound, size_bound),
  )

-- What a decoder reads back for a symbol that was encoded in the state `x`: the symbol and its offset
-- bits, the number of bits that were written, and, with the bits themselves, the state.
pub record Undoes (decoder : Decoder) (size symbol offset_bits x next bits : ℕ) : Type 0 where
  pub in_table : (size ≤ next) × (next < 2 * size)
  pub node : Node
  pub found : index decoder.nodes (next - size) ≡ ok node
  pub symbol_back : node.symbol ≡ symbol
  pub offset_back : node.offset_bits ≡ u16 offset_bits
  pub bits_back : node.bits_to_read ≡ bits
  pub few_bits : bits ≤ 14
  pub state_back : node.next_state_idx_base + x % 2 ^ bits ≡ x - size

module _ (spec : Spec) (valid : IsValid spec) where
  abbrev k : ℕ
  k = spec.size_log

  abbrev n : ℕ
  n = length spec.symbol_weights

  size_small : 2 ^ k ≤ 16384
  size_small = pow_mono k 14 valid.small

  weight_fits : (s w : ℕ) → index spec.symbol_weights s ≡ ok w → (0 < w) × (w ≤ 2 ^ k)
  weight_fits s w found = (
    valid.positive s w found,
    omega (arith, valid.counted s w found, count-le s spec.state_symbols, valid.n_states),
  )

  infos_made : symbol_infos_of k spec.symbol_weights ≡ ok (map (built_info k) spec.symbol_weights)
  infos_made = symbol_infos_ok k spec.symbol_weights valid.small weight_fits

  -- Building the encoder of a valid table does not panic: nothing overflows and every symbol is known.
  pub new_encoder_ok : (encoder : Encoder) × (new_encoder spec ≡ ok encoder)
  unfolding new_encoder
  new_encoder_ok =
      let (infos, e) =
        push_states_ok (2 ^ k) 0 n spec.state_symbols (map (built_info k) spec.symbol_weights)
          (omega (arith, size_small, valid.n_states)) (length-map _ spec.symbol_weights)
          valid.known in
      (record { symbol_infos = infos; size_log = k }, rw (infos_made, e))

  -- Each symbol has its states in the encoder.
  encoder_at :
      (encoder : Encoder) (s w : ℕ)
      → new_encoder spec ≡ ok encoder
      → index spec.symbol_weights s ≡ ok w
      → index encoder.symbol_infos s
        ≡ ok (with_states (built_info k w) (positions s spec.state_symbols (2 ^ k)))
  unfolding new_encoder
  encoder_at encoder s w h hw =
      let (infos, runs, at) =
        push_states_lem (2 ^ k) 0 n spec.state_symbols (map (built_info k) spec.symbol_weights) s
          (built_info k w) (omega (arith, size_small, valid.n_states))
          (length-map _ spec.symbol_weights) valid.known (index-map _ spec.symbol_weights s hw) in
      let built : record { symbol_infos = infos; size_log = k } ≡ encoder =
        ok-injective _ encoder (rw (infos_made, runs) at h) in
      let start : 2 ^ k + 0 ≡ 2 ^ k = omega arith in rw (← built, ← start) at

  module _ (encoder : Encoder) (decoder : Decoder) (offs : List ℕ) (x s w : ℕ)
      (made : new_encoder spec ≡ ok encoder) (dec_made : new_decoder spec offs ≡ ok decoder)
      (x_lo : 2 ^ k ≤ x) (x_hi : x < 2 * 2 ^ k) (hw : index spec.symbol_weights s ≡ ok w) where
    abbrev ps : List ℕ
    ps = positions s spec.state_symbols (2 ^ k)

    abbrev r : ℕ
    r = renorm_bits (built_info k w) x

    ps-length : length ps ≡ w
    ps-length = length-positions s spec.state_symbols (2 ^ k) ∙ valid.counted s w hw

    w-le : w ≤ 2 ^ k
    w-le = (weight_fits s w hw).1

    renormed : IsRenormed k w x r
    renormed = built_info-IsRenormed k w valid.small (valid.positive s w hw) w-le x x_lo x_hi

    next_found : (q : ℕ) × (index ps (x / 2 ^ r - w) ≡ ok q)
    next_found =
        index_ok ps (x / 2 ^ r - w) (omega (arith, ps-length, renormed.lower, renormed.upper))

    encode_runs : encode encoder x s ≡ ok (next_found.0, r)
    unfolding encode
    encode_runs = rw (
      encoder_at encoder s w made hw,
      ps-length,
      next_found.1,
      le→leb w (x / 2 ^ r) renormed.lower,
    )

    node_found :
        index decoder.nodes (next_found.0 - 2 ^ k)
        ≡ ok (built_node k s (x / 2 ^ r) (get_or offs s 0))
    unfolding new_decoder
    node_found =
        let (nodes, runs, e) =
          >>=-eq-ok (make_nodes (2 ^ k) offs spec.symbol_weights spec.state_symbols) _ dec_made in
        let total : w + (x / 2 ^ r - w) ≡ x / 2 ^ r = omega (arith, renormed.lower) in
        let (node, at, made_node) =
          make_nodes_at (2 ^ k) offs spec.symbol_weights spec.state_symbols (2 ^ k) s w
            (x / 2 ^ r - w) next_found.0 nodes hw runs next_found.1 in
        let same : node ≡ built_node k s (x / 2 ^ r) (get_or offs s 0) = ok-injective node _ (
          sym (rw total at made_node)
          ∙ make_node_ok k (x / 2 ^ r) valid.small
              (omega (arith, renormed.lower, valid.positive s w hw))
              (omega (arith, renormed.upper, w-le)) s (get_or offs s 0)) in
        let built : record { nodes = nodes } ≡ decoder = ok-injective _ decoder e in
        rw (← built) (at ∙ ap ok same)

    all_back : Undoes decoder (2 ^ k) s (get_or offs s 0) x next_found.0 r
    all_back =
        let (symbol, bits, state) =
          node_lem k x r w valid.small x_lo x_hi (valid.positive s w hw) renormed s
            (get_or offs s 0) (omega (arith, index-lt spec.symbol_weights s hw, valid.n_symbols)) in
        let bounds =
          positions_bounds s spec.state_symbols (2 ^ k) (x / 2 ^ r - w) next_found.0 next_found.1 in
        record {
          in_table = omega (arith, bounds, valid.n_states);
          node = built_node k s (x / 2 ^ r) (get_or offs s 0);
          found = node_found;
          symbol_back = symbol;
          offset_back = refl;
          bits_back = bits;
          few_bits = omega (arith, renormed.at_most, valid.small);
          state_back = state;
        }

-- For a valid table, in every state and for every known symbol, `encode` returns a new state of the
-- table and a number of bits, and the decoder's node at the new state has the symbol and the low 16
-- bits of its offset bits, reads as many bits, which are at most 14, and gets back the old state from them.
pub encode-Undoes :
    (spec : Spec) (valid : IsValid spec) (encoder : Encoder) (decoder : Decoder) (offs : List ℕ)
    (x s : ℕ)
    → new_encoder spec ≡ ok encoder
    → new_decoder spec offs ≡ ok decoder
    → table_size spec ≤ x
    → x < 2 * table_size spec
    → s < length spec.symbol_weights
    → (next : ℕ) × (bits : ℕ) × (encode encoder x s ≡ ok (next, bits))
      × Undoes decoder (table_size spec) s (get_or offs s 0) x next bits
unfolding table_size
encode-Undoes spec valid encoder decoder offs x s made dec_made x_lo x_hi known =
    let (w, hw) = index_ok spec.symbol_weights s known in
    (
      _,
      _,
      encode_runs spec valid encoder decoder offs x s w made dec_made x_lo x_hi hw,
      all_back spec valid encoder decoder offs x s w made dec_made x_lo x_hi hw,
    )
