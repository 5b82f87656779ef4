-- ===== src/Delta/Choose.antt =====
-- The choice of lookbacks in pco/src/delta.rs, on latents of `w` bits. The mutable tables of the source
-- are passed on; unchecked reads and writes are results `panic` out of range.
use pcodec.Common.{
  ℕ, zero, suc, ◌+◌, ◌-◌, ◌*◌, ◌%◌, min, if◌then◌else◌, leb, ltb, ◌==◌, List, [], ◌∷◌, length,
  replicate, map, bit_and, bit_xor,
}
use pcodec.Machine.{u32, u64, sub_u32, ◌>>>◌, shl, leading_zeros}
use pcodec.Errors.{Result, ok, panic, ◌>>=◌}
use pcodec.Slice.{index, assign}
use pcodec.Latent.{wrapping_sub}
use pcodec.Metadata.DeltaEncoding.{DeltaLookbackConfig, state_n, window_n}
use pcodec.Delta.Lookback.{index_back}

abbrev pub proposed_lookbacks_n : ℕ
proposed_lookbacks_n = 16

abbrev pub brute_lookbacks : ℕ
brute_lookbacks = 6

abbrev pub repeating_lookbacks : ℕ
repeating_lookbacks = 4

abbrev pub coarsenesses : List ℕ
coarsenesses = 0 ∷ 8 ∷ []

-- The closure `hash_fn`.
unfoldable pub hash_fn : ℕ → ℕ → ℕ
hash_fn hash_mask x =
    let mixed = u64 (bit_xor x (x >>> 32) * 11400714819323197441) in
    bit_and (bit_xor mixed (mixed >>> 32)) hash_mask

-- The subtraction must not go below zero.
abbrev pub sub_usize : ℕ → ℕ → Result ℕ
sub_usize a b = if ltb a b then panic else ok (a - b)

module _ (i hash_table_n window : ℕ) where
  -- The loop over the hashes of one coarseness; it hands on `proposal_idx`.
  unfoldable pub propose : ℕ → List ℕ → List ℕ → ℕ → List ℕ → Result (ℕ × List ℕ)
  propose offset idx_hash_table [] proposal_idx proposed = ok (proposal_idx, proposed)
  propose offset idx_hash_table (h ∷ hashes) proposal_idx proposed = do
    last ← index idx_hash_table (offset + h)
    lookback_to_last_instance ← sub_usize i last
    proposed' ← assign proposed proposal_idx (
        if leb lookback_to_last_instance window
        then lookback_to_last_instance
        else min proposal_idx i)
    propose offset idx_hash_table hashes (proposal_idx + 1) proposed'

  -- The loop over the coarsenesses.
  unfoldable pub lookup_each : ℕ → List ℕ → ℕ → ℕ → List ℕ → List ℕ → Result (List ℕ × List ℕ)
  unfolding propose hash_fn
  lookup_each l [] proposal_idx offset idx_hash_table proposed = ok (idx_hash_table, proposed)
  lookup_each l (coarseness ∷ rest) proposal_idx offset idx_hash_table proposed = do
    let bucket = l >>> coarseness
    let buckets = wrapping_sub 64 bucket 1 ∷ bucket ∷ u64 (bucket + 1) ∷ []
    let hashes = map (hash_fn (hash_table_n - 1)) buckets
    (proposal_idx', proposed') ← propose offset idx_hash_table hashes proposal_idx proposed
    idx_hash_table' ← assign idx_hash_table (offset + hash_fn (hash_table_n - 1) bucket) i
    lookup_each l rest proposal_idx' (offset + hash_table_n) idx_hash_table' proposed'

  unfoldable pub lookback_hash_lookup : ℕ → List ℕ → List ℕ → Result (List ℕ × List ℕ)
  unfolding lookup_each
  lookback_hash_lookup l idx_hash_table proposed =
      lookup_each l coarsenesses (brute_lookbacks + repeating_lookbacks) 0 idx_hash_table proposed

-- The variables of the loop in `choose_lookbacks`.
pub record Choice : Type 0 where
  pub lookback_counts : List ℕ
  pub idx_hash_table : List ℕ
  pub proposed_lookbacks : List ℕ
  pub best_lookback : ℕ
  pub repeating_lookback_idx : ℕ

-- `array::from_fn`, from the index `i` on.
abbrev pub from_fn : (ℕ → ℕ) → ℕ → ℕ → List ℕ
from_fn f zero i = []
from_fn f (suc left) i = f i ∷ from_fn f left (i + 1)

abbrev pub first_choice : ℕ → ℕ → ℕ → ℕ → Choice
first_choice state hash_table_n window latents_n = record {
  lookback_counts = replicate (min window latents_n) 1;
  idx_hash_table = replicate (length coarsenesses * hash_table_n) 0;
  proposed_lookbacks = from_fn (λ i. min (i + 1) state) proposed_lookbacks_n 0;
  best_lookback = 1;
  repeating_lookback_idx = 0;
}

module _ (w : ℕ) where
  -- `lookback_goodness + delta_goodness`.
  unfoldable pub goodness : ℕ → ℕ → ℕ → ℕ
  goodness l lookback_count other =
      sub_u32 32 (leading_zeros 32 lookback_count)
      + leading_zeros w (min (wrapping_sub w l other) (wrapping_sub w other l))

  -- The loop over the proposed lookbacks, with the best goodness and lookback so far.
  unfoldable pub find_best : ℕ → ℕ → List ℕ → List ℕ → List ℕ → ℕ → ℕ → Result ℕ
  unfolding goodness
  find_best l i latents lookback_counts [] best_goodness best_lookback = ok best_lookback
  find_best l i latents lookback_counts (lookback ∷ rest) best_goodness best_lookback = do
    lookback_count ← index_back lookback_counts lookback 1
    other ← index_back latents i lookback
    let good = goodness l lookback_count other
    let better = ltb best_goodness good
    find_best l i latents lookback_counts rest (if better then good else best_goodness)
        (if better then lookback else best_lookback)

  unfoldable pub find_best_lookback : ℕ → ℕ → List ℕ → List ℕ → List ℕ → Result ℕ
  unfolding find_best
  find_best_lookback l i latents proposed lookback_counts =
      find_best l i latents lookback_counts proposed 0 0

  module _ (hash_table_n window : ℕ) (latents : List ℕ) where
    -- One turn of the loop; it hands on the lookback for the latent at `i`.
    unfoldable pub choose_step : ℕ → Choice → Result (ℕ × Choice)
    unfolding lookback_hash_lookup find_best_lookback
    choose_step i c = do
      l ← index latents i
      let new_brute_lookback = min i proposed_lookbacks_n
      slot ← sub_usize new_brute_lookback 1
      proposed1 ← assign c.proposed_lookbacks slot new_brute_lookback
      (table, proposed2) ← lookback_hash_lookup i hash_table_n window l c.idx_hash_table proposed1
      new_best_lookback ← find_best_lookback l i latents proposed2 c.lookback_counts
      let idx =
          if new_best_lookback == c.best_lookback
          then c.repeating_lookback_idx
          else c.repeating_lookback_idx + 1
      proposed3 ← assign proposed2 (brute_lookbacks + idx % repeating_lookbacks) new_best_lookback
      count ← index_back c.lookback_counts new_best_lookback 1
      counts ← assign c.lookback_counts (new_best_lookback - 1) (u32 (count + 1))
      ok (
        u32 new_best_lookback,
        record {
          lookback_counts = counts;
          idx_hash_table = table;
          proposed_lookbacks = proposed3;
          best_lookback = new_best_lookback;
          repeating_lookback_idx = idx;
        },
      )

    -- The loop over the latents from `i` on, with the number of them that are left.
    unfoldable pub choose_each : ℕ → ℕ → Choice → Result (List ℕ)
    unfolding choose_step
    choose_each zero i c = ok []
    choose_each (suc left) i c = do
      (lookback, c') ← choose_step i c
      lookbacks ← choose_each left (i + 1) c'
      ok (lookback ∷ lookbacks)

  unfoldable pub choose_lookbacks : DeltaLookbackConfig → List ℕ → Result (List ℕ)
  unfolding choose_each
  choose_lookbacks config latents =
      let state = state_n config in
      let window = window_n config in
      let hash_table_n = shl 64 1 (config.window_n_log + 1) in
      if leb (length latents) state
      then ok []
      else if ltb window proposed_lookbacks_n
      then panic
      else choose_each hash_table_n window latents (length latents - state) state
          (first_choice state hash_table_n window (length latents))
