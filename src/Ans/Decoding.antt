-- ===== src/Ans/Decoding.antt =====
-- pco/src/ans/decoding.rs: the decoder's table.
use pcodec.Common.{ℕ, List, [], ◌∷◌, get_or}
use pcodec.Machine.{u16, u32, leading_zeros}
use pcodec.Traps.{sub_from, shift_left, add_to}
use pcodec.Errors.{Result, ok, ◌>>=◌}
use pcodec.Slice.{index, assign}
use pcodec.Ans.Spec.{Spec, table_size}

pub record Node : Type 0 where
  pub symbol : ℕ
  pub next_state_idx_base : ℕ
  pub offset_bits : ℕ
  pub bits_to_read : ℕ

pub record Decoder : Type 0 where
  pub nodes : List Node

-- The node of a symbol at the value `x_s` of its counter.
unfoldable pub make_node : ℕ → ℕ → ℕ → ℕ → Result Node
unfolding leading_zeros sub_from shift_left
make_node size symbol x_s offset_bits = do
  bits_to_read ← sub_from (leading_zeros 32 x_s) (leading_zeros 32 (u32 size))
  next_state_base ← shift_left 32 x_s bits_to_read
  next_state_idx_base ← sub_from next_state_base (u32 size)
  ok (record {
    symbol = u16 symbol;
    next_state_idx_base = u16 next_state_idx_base;
    offset_bits = u16 offset_bits;
    bits_to_read = u16 bits_to_read;
  })

module _ (size : ℕ) (bin_offset_bits : List ℕ) where
  -- The loop over the states of the table. An unknown bin has 0 offset bits.
  unfoldable pub make_nodes : List ℕ → List ℕ → Result (List Node)
  unfolding make_node add_to
  make_nodes symbol_x_s [] = ok []
  make_nodes symbol_x_s (symbol ∷ symbols) = do
    x_s ← index symbol_x_s symbol
    node ← make_node size symbol x_s (get_or bin_offset_bits symbol 0)
    grown ← add_to 32 x_s 1
    symbol_x_s' ← assign symbol_x_s symbol grown
    nodes ← make_nodes symbol_x_s' symbols
    ok (node ∷ nodes)

unfoldable pub new_decoder : Spec → List ℕ → Result Decoder
unfolding make_nodes table_size
new_decoder spec bin_offset_bits = do
  nodes ← make_nodes (table_size spec) bin_offset_bits spec.symbol_weights spec.state_symbols
  ok (record { nodes = nodes })
