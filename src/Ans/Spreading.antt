-- ===== src/Ans/Spreading.antt =====
-- The tables that `Spec::from_weights` of pco/src/ans/spec.rs makes are valid.
use pcodec.Common.{
  All-replicate, All-append, ℕ, zero, suc, ◌+◌, ◌*◌, ◌%◌, ◌^◌, ◌≤◌, ◌<◌, ◌≡◌, ◌≢◌, ◌⊎◌, refl, ap,
  ◌∙◌, arith, ◌==◌, List, [], ◌∷◌, ◌++◌, length, set, replicate, All, length-set, length-append,
  length-replicate, Bool-cases, inl, inr, ==→eq, ==→ne, ==_refl, ne→==,
}
use pcodec.Common.Pow.{two-pow-pos, pow_mono}
use pcodec.Machine.{u32, shl}
use pcodec.Errors.{Result, ok, err, corruption, ok-injective}
use pcodec.Slice.{index, index-lt, assign-eq-ok}
use pcodec.Ans.Spec.{
  Spec, sum, choose_stride, mod_table_size, spread_symbol, spread_weights, spread_state_symbols,
  default_weights, from_weights,
}
use pcodec.Ans.Stride.{stride-injective, choose_stride-odd, state_idx_lem}
use pcodec.Ans.Positions.{count}
use pcodec.Ans.Scatter.{
  count-append, count-replicate_self, count-replicate_ne, scatter, length-scatter, scatter-append,
  All-scatter, count-scatter_all,
}
use pcodec.Ans.RoundTrip.{IsValid}
use native.Mathlib.Nat.{mod-lt, mod-eq_of_lt, zero-add}

-- Each symbol as often as its weight says, from `symbol` on.
abbrev symbols : ℕ → List ℕ → List ℕ
symbols symbol [] = []
symbols symbol (w ∷ ws) = replicate w symbol ++ symbols (symbol + 1) ws

length-symbols : (symbol : ℕ) (ws : List ℕ) → length (symbols symbol ws) ≡ sum ws
length-symbols symbol [] = refl
length-symbols symbol (w ∷ ws) =
    rw (length-append, length-replicate, length-symbols (symbol + 1) ws) refl

symbols-below :
    (n symbol : ℕ) (ws : List ℕ) → symbol + length ws ≤ n → All (λ s. s < n) (symbols symbol ws)
symbols-below n symbol [] h = tt
symbols-below n symbol (w ∷ ws) h =
    All-append (λ s. s < n) (replicate w symbol) (symbols (symbol + 1) ws)
      (All-replicate (λ s. s < n) w symbol (omega arith))
      (symbols-below n (symbol + 1) ws (omega arith))

count_before : (s symbol : ℕ) (ws : List ℕ) → s < symbol → count s (symbols symbol ws) ≡ 0
count_before s symbol [] h = refl
count_before s symbol (w ∷ ws) h =
    rw
      (
        count-append,
        count-replicate_ne s symbol w (λ e. omega (arith, e)),
        count_before s (symbol + 1) ws (omega arith),
      )
      refl

count-symbols :
    (symbol j w : ℕ) (ws : List ℕ) → index ws j ≡ ok w → count (symbol + j) (symbols symbol ws) ≡ w
count-symbols symbol j w [] h = absurd cc
count-symbols symbol zero w (v ∷ ws) h =
    let e : symbol + 0 ≡ symbol = omega arith in
    rw
      (
        e,
        count-append,
        count-replicate_self,
        count_before symbol (symbol + 1) ws (omega arith),
        ok-injective v w h,
      )
      (omega arith)
count-symbols symbol (suc j) w (v ∷ ws) h =
    let e : symbol + suc j ≡ symbol + 1 + j = omega arith in
    rw
      (
        e,
        count-append,
        count-replicate_ne (symbol + 1 + j) symbol v (λ p. omega (arith, p)),
        count-symbols (symbol + 1) j w ws h,
      )
      (omega arith)

-- The index of a step.
abbrev place : ℕ → ℕ → ℕ → ℕ
place k stride t = stride * t % 2 ^ k

place-lt : (k stride t : ℕ) → place k stride t < 2 ^ k
place-lt k stride t = mod-lt (stride * t) (two-pow-pos k)

module _ (k stride : ℕ) (small : k ≤ 14) (bound : stride ≤ 16385) where
  spread_symbol_lem :
      (symbol left step : ℕ) (res : List ℕ)
      → step + left ≤ 2 ^ k
      → length res ≡ 2 ^ k
      → spread_symbol stride (mod_table_size k) symbol left step res
        ≡ ok (step + left, scatter (place k stride) step (replicate left symbol) res)
  unfolding spread_symbol
  spread_symbol_lem symbol zero step res room len = ap (λ t. ok (t, res)) (omega arith)
  spread_symbol_lem symbol (suc left) step res room len =
      let next : step + 1 ≡ suc step = omega arith in
      rw
        (
          state_idx_lem k stride step small bound (omega arith),
          assign-eq-ok res (place k stride step) symbol (rw len (place-lt k stride step)),
          next,
          spread_symbol_lem symbol left (suc step) (set res (place k stride step) symbol)
              (omega arith) (length-set res (place k stride step) symbol ∙ len),
        )
        (ap
          (λ t. ok (
            t,
            scatter (place k stride) (suc step) (replicate left symbol)
                (set res (place k stride step) symbol),
          ))
          (omega arith))

  spread_weights_lem :
      (symbol : ℕ) (ws : List ℕ) (step : ℕ) (res : List ℕ)
      → step + sum ws ≤ 2 ^ k
      → length res ≡ 2 ^ k
      → spread_weights stride (mod_table_size k) symbol ws step res
        ≡ ok (scatter (place k stride) step (symbols symbol ws) res)
  unfolding spread_weights
  spread_weights_lem symbol [] step res room len = refl
  spread_weights_lem symbol (w ∷ ws) step res room len =
      rw
        (
          spread_symbol_lem symbol w step res (omega arith) len,
          spread_weights_lem (symbol + 1) ws (step + w)
              (scatter (place k stride) step (replicate w symbol) res) (omega arith)
              (length-scatter (place k stride) step (replicate w symbol) res ∙ len),
          scatter-append (place k stride) step (replicate w symbol) (symbols (symbol + 1) ws) res,
          length-replicate w symbol,
        )
        refl

length-le-sum : (ws : List ℕ) → All (λ w. 0 < w) ws → length ws ≤ sum ws
length-le-sum [] h = omega arith
length-le-sum (w ∷ ws) (p, h) = omega (arith, length-le-sum ws h)

get-positive : (ws : List ℕ) (s w : ℕ) → All (λ w. 0 < w) ws → index ws s ≡ ok w → 0 < w
get-positive [] s w h e = absurd cc
get-positive (v ∷ ws) zero w (p, h) e = rw (← ok-injective v w e) p
get-positive (v ∷ ws) (suc s) w (p, h) e = get-positive ws s w h e

module _ (k : ℕ) (ws : List ℕ) (small : k ≤ 14) where
  size_bound : 2 ^ k ≤ 16384
  size_bound = pow_mono k 14 small

  abbrev stride : ℕ
  stride = choose_stride (2 ^ k)

  abbrev table : List ℕ
  table = scatter (place k stride) 0 (symbols 0 ws) (replicate (2 ^ k) 0)

  stride_bound : stride ≤ 16385
  stride_bound = omega (arith, (choose_stride-odd (2 ^ k) size_bound).1, size_bound)

  spread_state_symbols_lem : sum ws ≡ 2 ^ k → spread_state_symbols k ws ≡ ok table
  unfolding spread_state_symbols
  spread_state_symbols_lem total =
      let size : u32 (sum ws) ≡ 2 ^ k = omega (arith, total, size_bound) in
      let shifted : shl 32 1 k ≡ 2 ^ k = omega (arith, size_bound) in
      rw (size, shifted, ==_refl (2 ^ k))
        (spread_weights_lem k stride small stride_bound 0 ws 0 (replicate (2 ^ k) 0)
          (omega (arith, total)) (length-replicate (2 ^ k) 0))

  spread_state_symbols_err :
      sum ws < 2 ^ 32 → sum ws ≢ 2 ^ k → spread_state_symbols k ws ≡ err corruption
  unfolding spread_state_symbols
  spread_state_symbols_err fits other =
      let size : u32 (sum ws) ≡ sum ws = mod-eq_of_lt fits in
      let shifted : shl 32 1 k ≡ 2 ^ k = omega (arith, size_bound) in
      rw (size, shifted, ne→== (sum ws) (2 ^ k) other) refl

  table-IsValid :
      All (λ w. 0 < w) ws
      → 0 < length ws
      → sum ws ≡ 2 ^ k
      → IsValid (record { size_log = k; state_symbols = table; symbol_weights = ws })
  table-IsValid pos some total = record {
    small = small;
    n_states =
        length-scatter (place k stride) 0 (symbols 0 ws) (replicate (2 ^ k) 0)
        ∙ length-replicate (2 ^ k) 0;
    n_symbols = omega (arith, length-le-sum ws pos, total);
    known =
        All-scatter (place k stride) (λ s. s < length ws) 0 (symbols 0 ws) (replicate (2 ^ k) 0)
          (symbols-below (length ws) 0 ws (omega arith))
          (All-replicate (λ s. s < length ws) (2 ^ k) 0 some);
    positive = λ s w h. get-positive ws s w pos h;
    counted = λ s w h.
        count-scatter_all (place k stride) (2 ^ k) (length ws) (λ t _. place-lt k stride t)
          (stride-injective k stride (choose_stride-odd (2 ^ k) size_bound).0) s (symbols 0 ws)
          (replicate (2 ^ k) 0) (index-lt ws s h) (length-replicate (2 ^ k) 0)
          (length-symbols 0 ws ∙ total) (symbols-below (length ws) 0 ws (omega arith))
        ∙ rw (zero-add s) at (count-symbols 0 s w ws h);
  }

default_weights-positive :
    (ws : List ℕ)
    → All (λ w. 0 < w) ws
    → All (λ w. 0 < w) (default_weights ws) × (0 < length (default_weights ws))
unfolding default_weights
default_weights-positive [] h = omega arith
default_weights-positive (w ∷ ws) (p, h) = ((p, h), omega arith)

-- What `from_weights` returns when the weights fill the table, and when they do not.
abbrev pub Made : ℕ → List ℕ → Result Spec → Type 0
Made k ws r =
    (spec : Spec) × (r ≡ ok spec)
    × (spec.size_log ≡ k)
    × (spec.symbol_weights ≡ default_weights ws)
    × IsValid spec

-- The table's size is at most 2^14, no weight is zero, and the weights, which are 1 alone when
-- none are given, have a sum below 2^32. Then there are two cases. If the sum is the table's size,
-- `from_weights` returns a table of that size with those weights that is valid: it has as many
-- states as its size, at most as many symbols, and each symbol stands in it as often as its weight
-- says. Otherwise it reports corrupt data.
pub from_weights-IsValid :
    (k : ℕ) (ws : List ℕ)
    → k ≤ 14
    → All (λ w. 0 < w) ws
    → sum (default_weights ws) < 2 ^ 32
    → ((sum (default_weights ws) ≡ 2 ^ k) × Made k ws (from_weights k ws))
      ⊎ ((sum (default_weights ws) ≢ 2 ^ k) × (from_weights k ws ≡ err corruption))
unfolding from_weights
from_weights-IsValid k ws small pos fits =
    let weights : List ℕ = default_weights ws in
    let (pos', some) = default_weights-positive ws pos in
    elim (Bool-cases (sum weights == 2 ^ k)) [
      | inl e ↦
          let total = ==→eq (sum weights) (2 ^ k) e in
          inl (
            total,
            (
              _,
              rw (spread_state_symbols_lem k weights small total) refl,
              refl,
              refl,
              table-IsValid k weights small pos' some total,
            ),
          )
      | inr e ↦ inr (
        ==→ne (sum weights) (2 ^ k) e,
        rw (spread_state_symbols_err k weights small fits (==→ne (sum weights) (2 ^ k) e)) refl,
      )
    ]
