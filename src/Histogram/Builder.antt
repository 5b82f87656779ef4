-- ===== src/Histogram/Builder.antt =====
-- The histogram builder of pco/src/histograms.rs, on latents of `w` bits. The checks of `debug_assert!` are
-- results `panic`, and so are a division by zero and a subtraction that goes below zero.
use pcodec.Common.{
  ℕ, zero, suc, ◌+◌, ◌-◌, ◌/◌, ◌^◌, min, max, if◌then◌else◌, leb, ltb, ◌==◌, Bool, true, false,
  Option, none, some, List, [], ◌∷◌, ◌++◌, length, take, drop,
}
use pcodec.Traps.{mul_to, add_to, sub_from}
use pcodec.Machine.{shl, ◌>>>◌}
use pcodec.Errors.{Result, ok, panic, ◌>>=◌}
use pcodec.Slice.{index}
use pcodec.Delta.Choose.{sub_usize}

pub data Bound : Type 0 where
  loose tight : ℕ → Bound

-- `Bound::loose`
abbrev pub loose_value : Bound → ℕ
loose_value (loose x) = x
loose_value (tight x) = x

pub record HistogramBin : Type 0 where
  pub count : ℕ
  pub lower : ℕ
  pub upper : ℕ

pub record HistogramBuilder : Type 0 where
  pub n : ℕ
  pub n_bins : ℕ
  pub n_bins_log : ℕ
  pub n_applied : ℕ
  pub next_avail_bin_idx : ℕ
  pub incomplete_bin : Option HistogramBin
  pub dst : List HistogramBin

abbrev pub fold_min : ℕ → List ℕ → ℕ
fold_min acc [] = acc
fold_min acc (x ∷ xs) = fold_min (min acc x) xs

abbrev pub fold_max : ℕ → List ℕ → ℕ
fold_max acc [] = acc
fold_max acc (x ∷ xs) = fold_max (max acc x) xs

abbrev pub slice_max : List ℕ → ℕ
slice_max latents = fold_max 0 latents

unfoldable pub new_builder : ℕ → ℕ → HistogramBuilder
new_builder n n_bins_log = record {
  n = n;
  n_bins = shl 64 1 n_bins_log;
  n_bins_log = n_bins_log;
  n_applied = 0;
  next_avail_bin_idx = 0;
  incomplete_bin = none;
  dst = [];
}

-- The loop that steps `l` back over the run.
unfoldable pub run_start : ℕ → List ℕ → ℕ → Result ℕ
run_start target_x latents zero = ok 0
run_start target_x latents (suc l) = do
  x ← index latents l
  let rest = run_start target_x latents l
  (if x == target_x then rest else ok (suc l))

-- The loop that steps `r` over the run, on the latents from `r` on.
unfoldable pub run_end : ℕ → List ℕ → ℕ → ℕ
run_end target_x [] r = r
run_end target_x (x ∷ latents) r =
    let rest = run_end target_x latents (r + 1) in if x == target_x then rest else r

module _ (w : ℕ) where
  abbrev pub slice_min : List ℕ → ℕ
  slice_min latents = fold_min (2 ^ w - 1) latents

  abbrev pub slice_min_max : List ℕ → ℕ × ℕ
  slice_min_max latents = (fold_min (2 ^ w - 1) latents, fold_max 0 latents)

  -- The bounds of a new bin.
  abbrev pub tight_bounds : List ℕ → Bound → Bound → ℕ × ℕ
  tight_bounds latents (loose l) (loose u) = slice_min_max latents
  tight_bounds latents (loose l) (tight u) = (slice_min latents, u)
  tight_bounds latents (tight l) (loose u) = (l, slice_max latents)
  tight_bounds latents (tight l) (tight u) = (l, u)

  abbrev pub new_upper : List ℕ → Bound → ℕ
  new_upper latents (loose u) = slice_max latents
  new_upper latents (tight u) = u

  abbrev pub incomplete_with : Option HistogramBin → List ℕ → Bound → Bound → HistogramBin
  incomplete_with (some bin) latents lower upper = record bin {
    upper = new_upper latents upper;
    count = bin.count + length latents;
  }
  incomplete_with none latents lower upper =
      let (tight_lb, tight_ub) = tight_bounds latents lower upper in
      record { count = length latents; lower = tight_lb; upper = tight_ub }

  unfoldable pub apply_incomplete : HistogramBuilder → List ℕ → Bound → Bound → HistogramBuilder
  apply_incomplete state [] lower upper = state
  apply_incomplete state (x ∷ latents) lower upper = record state {
    incomplete_bin = some (incomplete_with state.incomplete_bin (x ∷ latents) lower upper);
    n_applied = state.n_applied + length (x ∷ latents);
  }

  abbrev pub complete_with :
      HistogramBuilder → ℕ → Option HistogramBin → Result (Bool × HistogramBuilder)
  complete_with state bin_idx none = ok (false, state)
  complete_with state bin_idx (some bin) =
      if ltb bin_idx state.next_avail_bin_idx
      then panic
      else ok (
        true,
        record state {
          next_avail_bin_idx = bin_idx + 1;
          dst = state.dst ++ (bin ∷ []);
          incomplete_bin = none;
        },
      )

  -- True if anything was completed.
  unfoldable pub complete_bin : HistogramBuilder → ℕ → Result (Bool × HistogramBuilder)
  complete_bin state bin_idx = complete_with state bin_idx state.incomplete_bin

  unfoldable pub bin_idx : HistogramBuilder → ℕ → Result ℕ
  bin_idx state c_count =
      if state.n == 0 then panic else ok (shl 64 c_count state.n_bins_log / state.n)

  unfoldable pub c_count : HistogramBuilder → ℕ → Result ℕ
  unfolding mul_to add_to sub_from
  c_count state bin_idx = do
    product ← mul_to 64 (bin_idx + 1) state.n
    total ← add_to 64 product state.n_bins
    numerator ← sub_from total 1
    ok (numerator >>> state.n_bins_log)

  -- The bin that a run goes to, once the bin before it has been completed or taken.
  unfoldable pub run_bin : HistogramBuilder → ℕ → Result (ℕ × HistogramBuilder)
  unfolding complete_bin
  run_bin state idx =
      if ltb state.next_avail_bin_idx idx
      then (do
        let spare_bin_idx = idx - 1
        (completed, state') ← complete_bin state spare_bin_idx
        ok (if completed then idx else spare_bin_idx, state'))
      else ok (idx, state)

  unfoldable pub apply_constant_run : HistogramBuilder → List ℕ → Result HistogramBuilder
  unfolding bin_idx c_count run_bin apply_incomplete
  apply_constant_run state latents = do
    let start = state.n_applied
    let stop = start + length latents
    idx ← bin_idx state (start + length latents / 2)
    (idx', state1) ← run_bin state idx
    x ← index latents 0
    let state2 = apply_incomplete state1 latents (tight x) (tight x)
    target_c_count ← c_count state2 idx'
    (if leb target_c_count stop
        then (complete_bin state2 idx' >>= λ (completed, state3). ok state3)
        else ok state2)

  -- What stands before the run.
  unfoldable pub apply_before : HistogramBuilder → List ℕ → ℕ → Result HistogramBuilder
  unfolding apply_incomplete
  apply_before state latents zero = ok state
  apply_before state latents (suc l) = do
    first ← index latents 0
    last ← index latents l
    ok (apply_incomplete state (take (suc l) latents) (tight first) (tight last))

  -- All the latents go to the target bin.
  unfoldable pub apply_rest : HistogramBuilder → List ℕ → ℕ → ℕ → Result HistogramBuilder
  unfolding apply_incomplete complete_bin
  apply_rest state latents target_bin_idx target_i = do
    first ← index latents 0
    last ← index latents (length latents - 1)
    let state' = apply_incomplete state latents (tight first) (tight last)
    (if target_i == length latents
        then (complete_bin state' target_bin_idx >>= λ (completed, state''). ok state'')
        else ok state')

  -- The loop runs on fuel; a turn takes at least one of the latents.
  unfoldable pub apply_sorted : ℕ → HistogramBuilder → List ℕ → Result HistogramBuilder
  unfolding bin_idx c_count apply_rest run_start run_end apply_before apply_constant_run
  apply_sorted fuel state [] = ok state
  apply_sorted zero state (x ∷ latents) = panic
  apply_sorted (suc fuel) state (x ∷ latents) = do
    target_bin_idx ← bin_idx state state.n_applied
    target_c_count ← c_count state target_bin_idx
    target_i ← sub_usize target_c_count state.n_applied
    let turn : Result HistogramBuilder = do
      before ← sub_usize target_i 1
      target_x ← index (x ∷ latents) before
      l ← run_start target_x (x ∷ latents) before
      let r = run_end target_x (drop target_i (x ∷ latents)) target_i
      state1 ← apply_before state (x ∷ latents) l
      state2 ← apply_constant_run state1 (take (r - l) (drop l (x ∷ latents)))
      apply_sorted fuel state2 (drop r (x ∷ latents))
    (if ltb target_bin_idx state.next_avail_bin_idx
        then panic
        else if leb (length (x ∷ latents)) target_i
        then apply_rest state (x ∷ latents) target_bin_idx target_i
        else turn)
