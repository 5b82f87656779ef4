-- ===== src/Ans/Encoding.antt =====
-- pco/src/ans/encoding.rs: `Encoder`. The weights are quantised elsewhere.
use pcodec.Common.{ℕ, ◌+◌, ◌-◌, if◌then◌else◌, leb, List, [], ◌∷◌, ◌++◌, length}
use pcodec.Common.Pow.{ilog2}
use pcodec.Machine.{u32, shl, ◌>>>◌}
use pcodec.Traps.{mul_to, sub_from, shift_left}
use pcodec.Errors.{Result, ok, panic, ◌>>=◌}
use pcodec.Slice.{index, assign}
use pcodec.Ans.Spec.{Spec, table_size}

pub record SymbolInfo : Type 0 where
  pub renorm_bit_cutoff : ℕ
  pub min_renorm_bits : ℕ
  pub next_states : List ℕ

unfoldable pub next_state_for : SymbolInfo → ℕ → Result ℕ
next_state_for info x_s =
    if leb (length info.next_states) x_s
    then index info.next_states (x_s - length info.next_states)
    else panic

pub record Encoder : Type 0 where
  pub symbol_infos : List SymbolInfo
  pub size_log : ℕ

-- What `new` makes of one weight, before any state is pushed. The subtraction of 1 stops the run where
-- `ilog2` would be of 0.
unfoldable pub symbol_info : ℕ → ℕ → Result SymbolInfo
unfolding mul_to sub_from shift_left
symbol_info size_log weight = do
  doubled ← mul_to 32 2 weight
  max_x_s ← sub_from doubled 1
  min_renorm_bits ← sub_from size_log (ilog2 max_x_s)
  power ← shift_left 32 1 min_renorm_bits
  renorm_bit_cutoff ← mul_to 32 doubled power
  ok (record {
    renorm_bit_cutoff = renorm_bit_cutoff;
    min_renorm_bits = min_renorm_bits;
    next_states = [];
  })

-- The loop over the weights.
unfoldable pub symbol_infos_of : ℕ → List ℕ → Result (List SymbolInfo)
unfolding symbol_info
symbol_infos_of size_log [] = ok []
symbol_infos_of size_log (weight ∷ weights) = do
  info ← symbol_info size_log weight
  infos ← symbol_infos_of size_log weights
  ok (info ∷ infos)

unfoldable pub push_state : SymbolInfo → ℕ → SymbolInfo
push_state info state = record info { next_states = info.next_states ++ (state ∷ []) }

-- The loop over the enumerated states of the table.
unfoldable pub push_states : ℕ → ℕ → List ℕ → List SymbolInfo → Result (List SymbolInfo)
unfolding push_state
push_states size state_idx [] infos = ok infos
push_states size state_idx (symbol ∷ symbols) infos = do
  info ← index infos symbol
  infos' ← assign infos symbol (push_state info (u32 (size + state_idx)))
  push_states size (state_idx + 1) symbols infos'

unfoldable pub new_encoder : Spec → Result Encoder
unfolding symbol_infos_of push_states table_size
new_encoder spec = do
  infos ← symbol_infos_of spec.size_log spec.symbol_weights
  symbol_infos ← push_states (table_size spec) 0 spec.state_symbols infos
  ok (record { symbol_infos = symbol_infos; size_log = spec.size_log })

unfoldable pub renorm_bits : SymbolInfo → ℕ → ℕ
renorm_bits info state =
    if leb info.renorm_bit_cutoff state then info.min_renorm_bits + 1 else info.min_renorm_bits

-- The new state, and how many low bits of the old one are to be written.
unfoldable pub encode : Encoder → ℕ → ℕ → Result (ℕ × ℕ)
unfolding renorm_bits next_state_for
encode encoder state symbol = do
  info ← index encoder.symbol_infos symbol
  let bits = renorm_bits info state
  next ← next_state_for info (state >>> bits)
  ok (next, bits)

unfoldable pub default_state : Encoder → ℕ
default_state encoder = shl 32 1 encoder.size_log
