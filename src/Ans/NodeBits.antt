-- ===== src/Ans/NodeBits.antt =====
-- How many bits the nodes of the decoder in pco/src/ans/decoding.rs read, and that it is built.
use pcodec.Common.{
  ℕ, suc, ◌+◌, ◌*◌, ◌^◌, ◌≤◌, ◌<◌, ◌≡◌, ◌≢◌, get_or, refl, sym, ◌∙◌, arith, ◌==◌, Bool-cases, inl,
  inr, ==→eq, ==→ne, ==_refl, List, [], ◌∷◌, length, length-set, set, All,
}
use pcodec.Common.Pow.{pow_mono}
use pcodec.Traps.{add_to_lem}
use pcodec.Errors.{ok, ok-injective}
use pcodec.Slice.{index, index_ok, assign-eq-ok, index-lt, index-set_self, index-set_ne}
use pcodec.Ans.Spec.{Spec, table_size}
use pcodec.Ans.Decoding.{Node, make_nodes, Decoder, new_decoder}
use pcodec.Ans.NodeOf.{built_node, make_node_ok}
use pcodec.Ans.Positions.{count, count-le}
use pcodec.Ans.RoundTrip.{IsValid}

module _ (k : ℕ) (small : k ≤ 14) (offs : List ℕ) where
  -- The counters of the symbols that are still to come start at the weights and never reach twice
  -- the table size.
  abbrev Counts : List ℕ → List ℕ → Type 0
  Counts x_s ys = (s v : ℕ) → index x_s s ≡ ok v → (1 ≤ v) × (v + count s ys ≤ 2 * 2 ^ k)

  Counts-set :
      (x_s ys : List ℕ) (y v : ℕ)
      → Counts x_s (y ∷ ys)
      → index x_s y ≡ ok v
      → Counts (set x_s y (v + 1)) ys
  Counts-set x_s ys y v inv e s u found = elim (Bool-cases (y == s)) [
    | inl same ↦
        let p : y ≡ s = ==→eq y s same in
        let here : v + suc (count y ys) ≤ 2 * 2 ^ k = rw (==_refl y) at (inv y v e).1 in
        let grown : v + 1 ≡ u =
          ok-injective (v + 1) u
            (sym (index-set_self x_s y (v + 1) (index-lt x_s y e)) ∙ rw (← p) at found) in
        rw (← p) (omega (arith, grown, here))
    | inr other ↦
        let ne : y ≢ s = ==→ne y s other in
        let kept : index x_s s ≡ ok u = sym (index-set_ne x_s y s (v + 1) ne) ∙ found in
        rw other at (inv s u kept)
  ]

  make_nodes_ok :
      (n : ℕ) (x_s ys : List ℕ)
      → length x_s ≡ n
      → All (λ y. y < n) ys
      → Counts x_s ys
      → (nodes : List Node) × (make_nodes (2 ^ k) offs x_s ys ≡ ok nodes)
        × All (λ node. node.bits_to_read ≤ 14) nodes
  unfolding make_nodes
  make_nodes_ok n x_s [] len a inv = ([], refl, tt)
  make_nodes_ok n x_s (y ∷ ys) len (known, a) inv =
      let in_range : y < length x_s = rw len known in
      let (v, e) = index_ok x_s y in_range in
      let (lo, hi) = inv y v e in
      let here : v + suc (count y ys) ≤ 2 * 2 ^ k = rw (==_refl y) at hi in
      let bound = pow_mono k 14 small in
      let (nodes, rest, few) =
        make_nodes_ok n (set x_s y (v + 1)) ys (length-set x_s y _ ∙ len) a
          (Counts-set x_s ys y v inv e) in
      (
        built_node k y v (get_or offs y 0) ∷ nodes,
        rw
            (
              e,
              make_node_ok k v small lo (omega (arith, here)) y (get_or offs y 0),
              add_to_lem 32 v 1 (omega (arith, here, bound)),
              assign-eq-ok x_s y (v + 1) in_range,
              rest,
            )
            refl,
        (omega (arith, small), few),
      )

module _ (spec : Spec) (valid : IsValid spec) where
  table_nodes :
      (offs : List ℕ)
      → (decoder : Decoder) × (new_decoder spec offs ≡ ok decoder)
        × All (λ node. node.bits_to_read ≤ 14) decoder.nodes
  unfolding new_decoder table_size
  table_nodes offs =
      let (nodes, runs, few) =
        make_nodes_ok spec.size_log valid.small offs (length spec.symbol_weights)
          spec.symbol_weights spec.state_symbols refl valid.known
          (λ s w hw. omega (
            arith,
            valid.positive s w hw,
            valid.counted s w hw,
            count-le s spec.state_symbols,
            valid.n_states,
          )) in
      (record { nodes = nodes }, rw runs refl, few)

  -- Building the decoder of a valid table does not panic, whatever offset bits are given: every symbol is
  -- known, and no subtraction, shift or counter overflows.
  pub new_decoder_ok : (offs : List ℕ) → (decoder : Decoder) × (new_decoder spec offs ≡ ok decoder)
  new_decoder_ok offs = let (decoder, made, few) = table_nodes offs in (decoder, made)

  -- No node of the decoder of a valid table reads more than 14 bits.
  pub new_decoder-few :
      (offs : List ℕ) (decoder : Decoder)
      → new_decoder spec offs ≡ ok decoder
      → All (λ node. node.bits_to_read ≤ 14) decoder.nodes
  new_decoder-few offs decoder made =
      let (decoder', made', few) = table_nodes offs in
      rw (← ok-injective decoder' decoder (sym made' ∙ made)) few
