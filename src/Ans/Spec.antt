-- ===== src/Ans/Spec.antt =====
-- pco/src/ans/spec.rs: which symbol stands at which index of the table.
use pcodec.Common.{
  ℕ, zero, suc, ◌+◌, ◌-◌, ◌*◌, ◌/◌, ◌%◌, ◌^◌, bit_and, if◌then◌else◌, ◌==◌, List, [], ◌∷◌,
  replicate, not,
}
use pcodec.Machine.{u32, ◌>>>◌, shl}
use pcodec.Errors.{Result, ok, err, corruption, ◌>>=◌}
use pcodec.Slice.{assign}

pub record Spec : Type 0 where
  pub size_log : ℕ
  pub state_symbols : List ℕ
  pub symbol_weights : List ℕ

abbrev pub sum : List ℕ → ℕ
sum [] = 0
sum (x ∷ xs) = x + sum xs

unfoldable pub choose_stride : ℕ → ℕ
choose_stride table_size =
    let res = u32 (3 * table_size) / 5 in if res % 2 == 0 then u32 (res + 1) else res

-- `Weight::MAX >> 1 >> (Weight::BITS - 1 - size_log)`.
unfoldable pub mod_table_size : ℕ → ℕ
mod_table_size size_log = (2 ^ 32 - 1) >>> 1 >>> (32 - 1 - size_log)

module _ (stride mask : ℕ) where
  -- The inner loop, with the rounds that are left; it hands on `step` and `res`.
  unfoldable pub spread_symbol : ℕ → ℕ → ℕ → List ℕ → Result (ℕ × List ℕ)
  spread_symbol symbol zero step res = ok (step, res)
  spread_symbol symbol (suc left) step res = do
    let state_idx = bit_and (u32 (stride * step)) mask
    res' ← assign res state_idx symbol
    spread_symbol symbol left (step + 1) res'

  -- The outer loop over the enumerated weights.
  unfoldable pub spread_weights : ℕ → List ℕ → ℕ → List ℕ → Result (List ℕ)
  spread_weights symbol [] step res = ok res
  spread_weights symbol (weight ∷ weights) step res = do
    (step', res') ← spread_symbol symbol weight step res
    spread_weights (symbol + 1) weights step' res'

unfoldable pub spread_state_symbols : ℕ → List ℕ → Result (List ℕ)
unfolding choose_stride mod_table_size
spread_state_symbols size_log symbol_weights =
    let table_size = u32 (sum symbol_weights) in
    if not (table_size == shl 32 1 size_log)
    then err corruption
    else spread_weights (choose_stride table_size) (mod_table_size size_log) 0 symbol_weights 0
        (replicate table_size 0)

unfoldable pub default_weights : List ℕ → List ℕ
default_weights [] = 1 ∷ []
default_weights (w ∷ ws) = w ∷ ws

unfoldable pub from_weights : ℕ → List ℕ → Result Spec
unfolding default_weights
from_weights size_log symbol_weights = do
  let weights = default_weights symbol_weights
  state_symbols ← spread_state_symbols size_log weights
  ok (record { size_log = size_log; state_symbols = state_symbols; symbol_weights = weights })

unfoldable pub table_size : Spec → ℕ
table_size spec = 2 ^ spec.size_log
